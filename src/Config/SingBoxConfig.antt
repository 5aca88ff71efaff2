-- ===== src/Config/SingBoxConfig.antt =====
-- `build_sing_box_config` and `build_core_config` of native/share_link_parser.cpp.
pub mod WellFormed
use entropy_vpn.Base.{
  Bool, true, not, ◌&&◌, ◌||◌, List, [], ◌∷◌, ◌++◌, Option, none, some, Bytes, codes, if◌then◌else◌,
  is_empty, pos,
}
use entropy_vpn.Config.Dns.{
  dns_strategy, tun_addresses, tun_route_addresses, write_sing_box_dns_server,
}
use entropy_vpn.Config.Fragments.{member, string_member, when, filled_array, object}
use entropy_vpn.Config.Matchers.{tun_route_excludes, route_final}
use entropy_vpn.Config.Options.{ConfigOptions, is_tun, options_from_json}
use entropy_vpn.Config.Routes.{append_sing_box_route_rules}
use entropy_vpn.Config.SingBox.{sing_box_outbound_json}
use entropy_vpn.Config.XrayConfig.{build_xray_config, item_if}
use entropy_vpn.Json.Parser.{parse}
use entropy_vpn.Json.Serialize.{serialize}
use entropy_vpn.Json.Value.{Doubles, Json, is_object}
use entropy_vpn.Json.Writer.{quoted, quoted_array}
use entropy_vpn.Number.{write_int}
use entropy_vpn.Profile.{Profile, profile_from_json, or_default}
use entropy_vpn.Result.{Result, ok, err, ◌>>=◌}
use entropy_vpn.Share.Extract.{array_text}
use entropy_vpn.Share.Words.{is}
use entropy_vpn.Text.{trim}
use entropy_vpn.Tun.Apply.{apply_native_sing_box_tun_settings}

bool_text : Bool → Bytes
bool_text b = if b then codes "true" else codes "false"

abbrev android_tun : ConfigOptions → Bool
android_tun o = is_tun o && o.is_android

log_value : ConfigOptions → Bytes
log_value o =
    object "level" (quoted (if is_tun o then codes "debug" else codes "info"))
      (member "timestamp" (codes "true"))

first_server : List Bytes → Bytes
first_server [] = codes "1.1.1.1"
first_server (s ∷ servers) = s

dns_servers_text : ConfigOptions → Bytes
unfolding first_server
dns_servers_text o =
    let local_server =
      object "type" (quoted (codes "local")) (string_member "tag" (codes "dns-local")) in
    let remote_server =
      write_sing_box_dns_server o.dns_mode (codes "dns-remote") (first_server o.dns_servers)
        (codes "proxy") in
    array_text (item_if (not (android_tun o)) local_server (remote_server ∷ []))

sing_box_dns_member : ConfigOptions → Bytes
unfolding dns_servers_text
sing_box_dns_member o = when (is_tun o) (
    member "dns" (
      object "servers" (dns_servers_text o) (
        string_member "final" (codes "dns-remote")
        ++ string_member "strategy" (dns_strategy o.tun_ip_mode)
        ++ member "independent_cache" (codes "true"))))

mixed_inbound : Bytes
mixed_inbound = object "type" (quoted (codes "mixed")) (
    string_member "tag" (codes "mixed-in")
    ++ string_member "listen" (codes "127.0.0.1")
    ++ member "listen_port" (write_int (pos 2080))
    ++ member "set_system_proxy" (codes "true"))

strict_route : ConfigOptions → Bool
strict_route o =
    not (is o.split_tunnel_mode "whitelist") && not (is o.domain_split_tunnel_mode "whitelist")

tun_start : ConfigOptions → Bytes
tun_start o =
    string_member "tag" (codes "tun-in")
    ++ when (not o.is_android) (
        string_member "interface_name"
          (or_default (trim o.tun_interface_name) (codes "EntropyVPN TUN")))
    ++ member "mtu" (write_int (pos 1400))
    ++ string_member "stack" (if android_tun o then codes "gvisor" else codes "mixed")

tun_routes : Profile → ConfigOptions → Bytes
unfolding bool_text strict_route
tun_routes p o =
    member "address" (quoted_array (tun_addresses o.tun_ip_mode))
    ++ member "auto_route" (codes "true")
    ++ when (not o.is_android) (member "strict_route" (bool_text (strict_route o)))
    ++ filled_array "route_address" (tun_route_addresses o.tun_ip_mode)
    ++ filled_array "route_exclude_address" (tun_route_excludes p)

sing_box_tun_inbound : Profile → ConfigOptions → Bytes
unfolding tun_start tun_routes
sing_box_tun_inbound p o = object "type" (quoted (codes "tun")) (tun_start o ++ tun_routes p o)

has_default_interface : ConfigOptions → Bool
has_default_interface o = not (is_empty (trim o.route_default_interface))

auto_detect : ConfigOptions → Bool
unfolding has_default_interface
auto_detect o = if is_tun o then android_tun o || not (has_default_interface o) else true

route_rest : ConfigOptions → Bytes
unfolding auto_detect bool_text
route_rest o =
    when (is_tun o && not (android_tun o))
      (string_member "default_domain_resolver" (codes "dns-local"))
    ++ member "auto_detect_interface" (bool_text (auto_detect o))
    ++ when (is_tun o && has_default_interface o && not (android_tun o))
        (string_member "default_interface" (trim o.route_default_interface))

route_value : ConfigOptions → Bytes
unfolding route_rest
route_value o =
    if is_tun o
    then object "rules" (codes "[" ++ append_sing_box_route_rules o ++ codes "]")
        (string_member "final" (route_final o) ++ route_rest o)
    else object "final" (quoted (route_final o)) (route_rest o)

-- The configuration for a profile that carries none.
unfoldable pub new_sing_box_config : Profile → ConfigOptions → Result Bytes
unfolding log_value sing_box_dns_member mixed_inbound sing_box_tun_inbound route_value
new_sing_box_config p o = do
  outbound ← sing_box_outbound_json p o.outbound_bind_interface
  ok (
      object "log" (log_value o) (
        sing_box_dns_member o
        ++ member "inbounds"
            (array_text ((if is_tun o then sing_box_tun_inbound p o else mixed_inbound) ∷ []))
        ++ member "outbounds" (
            array_text (
              outbound
              ∷ object "type" (quoted (codes "direct")) (string_member "tag" (codes "direct"))
              ∷ []))
        ++ member "route" (route_value o)))

module _ {N : Type 0} (D : Doubles N) where
  or_text_of : Option (Json N) → Bytes → Bytes
  or_text_of none text = text
  or_text_of (some config) text = serialize D config

  -- The configuration that the profile carries, with the settings for its TUN inbounds.
  unfoldable pub carried_config : Profile → ConfigOptions → Result Bytes
  unfolding or_text_of apply_native_sing_box_tun_settings
  carried_config p o = do
    config ← parse D p.sing_box_config_json
    ok (
        if is_object config
        then or_text_of
            (apply_native_sing_box_tun_settings D config o.tun_ip_mode (codes "gvisor")
              (if o.is_windows then trim o.tun_interface_name else [])
              (if o.is_android then pos 1400 else pos 0) o.is_android)
            p.sing_box_config_json
        else p.sing_box_config_json)

  unfoldable pub build_sing_box_config : Profile → ConfigOptions → Result Bytes
  unfolding carried_config new_sing_box_config
  build_sing_box_config p o =
      if is_empty p.sing_box_config_json then new_sing_box_config p o else carried_config p o

  unfoldable pub build_core_config : Bytes → Bytes → Result Bytes
  unfolding build_sing_box_config build_xray_config
  build_core_config profile_json options_json =
      let profile = profile_from_json profile_json in
      let options = options_from_json options_json in
      if is options.core "singBox"
      then build_sing_box_config profile options
      else if is options.core "xray"
      then build_xray_config profile options
      else err (codes "Unsupported core: " ++ options.core)
