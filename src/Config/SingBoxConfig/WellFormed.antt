-- ===== src/Config/SingBoxConfig/WellFormed.antt =====
-- The configuration of sing-box, and the one that `build_core_config` returns, are JSON.
use entropy_vpn.Base.{
  Bool, true, false, not, List, [], ◌∷◌, ◌++◌, append_assoc, Bytes, codes, ◌≡◌, ap, pos, All,
  is_empty, if◌then◌else◌, Bool-cases, inl, inr,
}
use entropy_vpn.Config.Dns.{
  parse_doh_server, parse_dot_server, write_sing_box_dns_server, detour_end,
}
use entropy_vpn.Config.Fragments.WellFormed.{
  IsValue, IsMembers, Ensures, Ensures-bind, if-Ensures, json_text,
}
use entropy_vpn.Config.Fragments.{object, member, string_member}
use entropy_vpn.Config.Options.{ConfigOptions, is_tun, options_from_json}
use entropy_vpn.Config.Routes.Items.{NoBlank, route_rules-IsValue}
use entropy_vpn.Config.SingBox.WellFormed.{sing_box_outbound_json-IsValue}
use entropy_vpn.Config.SingBox.{sing_box_outbound_json}
use entropy_vpn.Config.SingBoxConfig.{
  bool_text, android_tun, log_value, first_server, dns_servers_text, sing_box_dns_member,
  mixed_inbound, tun_start, tun_routes, sing_box_tun_inbound, route_rest, route_value,
  new_sing_box_config, build_sing_box_config, build_core_config,
}
use entropy_vpn.Config.XrayConfig.WellFormed.{build_xray_config-IsValue}
use entropy_vpn.Config.XrayConfig.{item_if}
use entropy_vpn.Json.Escape.{json_escape, escape_byte}
use entropy_vpn.Json.Value.{Doubles}
use entropy_vpn.Json.Writer.{quoted}
use entropy_vpn.Number.{write_int}
use entropy_vpn.Profile.{Profile, profile_from_json}
use entropy_vpn.Share.Extract.Output.{array_text-IsValue}
use entropy_vpn.Share.Words.{is}

text-IsValue : (s v : Bytes) → s ≡ v → IsValue v → IsValue s
text-IsValue s v e h = rw e h

if-IsValue : (b : Bool) (s t : Bytes) → IsValue s → IsValue t → IsValue (if b then s else t)
if-IsValue true s t hs ht = hs
if-IsValue false s t hs ht = ht

abbrev server_object : Bytes → Bytes → Bytes
server_object type more =
    object "type" (quoted type)
      (string_member "tag" (codes "dns-remote") ++ more ++ string_member "detour" (codes "proxy"))

server_object-IsValue : (type more : Bytes) → IsMembers more → IsValue (server_object type more)
server_object-IsValue type more h = search json_text depth 14 fits 9000

doh_members : Bytes → Bytes
doh_members server =
    string_member "server" (parse_doh_server server).host
    ++ member "server_port" (write_int (parse_doh_server server).port)
    ++ string_member "path" (parse_doh_server server).path

dot_members : Bytes → Bytes
dot_members server =
    string_member "server" (parse_dot_server server).host
    ++ member "server_port" (write_int (parse_dot_server server).port)

plain_members : Bytes → Bytes
plain_members server = string_member "server" server ++ member "server_port" (write_int (pos 53))

dns_server-IsValue :
    (mode server : Bytes)
    → IsValue (write_sing_box_dns_server mode (codes "dns-remote") server (codes "proxy"))
dns_server-IsValue mode server = elim (Bool-cases (is mode "doh")) [
  | inl e ↦
      text-IsValue _ (server_object (codes "https") (doh_members server))
        (unfold write_sing_box_dns_server in
          rw e (
            unfold detour_end doh_members object string_member member quoted json_escape
              escape_byte in
            simp append_assoc))
        (server_object-IsValue _ _ (unfold doh_members in search json_text depth 12 fits 9000))
  | inr other ↦ elim (Bool-cases (is mode "dot")) [
    | inl e ↦
        text-IsValue _ (server_object (codes "tls") (dot_members server))
          (unfold write_sing_box_dns_server in
            rw (other, e)
              (unfold detour_end dot_members object string_member member quoted json_escape
                  escape_byte in
                simp append_assoc))
          (server_object-IsValue _ _ (unfold dot_members in search json_text depth 12 fits 9000))
    | inr e ↦
        text-IsValue _ (server_object (codes "udp") (plain_members server))
          (unfold write_sing_box_dns_server in
            rw (other, e)
              (unfold detour_end plain_members write_int object string_member member quoted
                  json_escape escape_byte in
                simp append_assoc))
          (server_object-IsValue _ _ (unfold plain_members in search json_text depth 12 fits 9000))
  ]
]

bool_text-IsValue : (b : Bool) → IsValue (bool_text b)
unfolding bool_text
bool_text-IsValue b = search (json_text, if-IsValue) depth 6

log_value-IsValue : (o : ConfigOptions) → IsValue (log_value o)
unfolding log_value
log_value-IsValue o = search json_text depth 14 fits 9000

item_if-All :
    (b : Bool) (s : Bytes) (later : List Bytes)
    → IsValue s
    → All IsValue later
    → All IsValue (item_if b s later)
item_if-All true s later h hs = (h, hs)
item_if-All false s later h hs = hs

dns_servers_text-IsValue : (o : ConfigOptions) → IsValue (dns_servers_text o)
unfolding dns_servers_text
dns_servers_text-IsValue o = array_text-IsValue _ (
    item_if-All (not (android_tun o)) _ _ (search json_text depth 12 fits 9000)
      (dns_server-IsValue o.dns_mode (first_server o.dns_servers), tt))

sing_box_dns_member-IsMembers : (o : ConfigOptions) → IsMembers (sing_box_dns_member o)
unfolding sing_box_dns_member
sing_box_dns_member-IsMembers o = search (json_text, dns_servers_text-IsValue) depth 14 fits 9000

mixed_inbound-IsValue : IsValue mixed_inbound
unfolding mixed_inbound
mixed_inbound-IsValue = search json_text depth 14 fits 9000

tun_start-IsMembers : (o : ConfigOptions) → IsMembers (tun_start o)
unfolding tun_start
tun_start-IsMembers o = search json_text depth 14 fits 9000

tun_routes-IsMembers : (p : Profile) (o : ConfigOptions) → IsMembers (tun_routes p o)
unfolding tun_routes
tun_routes-IsMembers p o = search (json_text, bool_text-IsValue) depth 14 fits 9000

sing_box_tun_inbound-IsValue :
    (p : Profile) (o : ConfigOptions) → IsValue (sing_box_tun_inbound p o)
unfolding sing_box_tun_inbound
sing_box_tun_inbound-IsValue p o =
    search (json_text, tun_start-IsMembers, tun_routes-IsMembers) depth 14 fits 9000

route_rest-IsMembers : (o : ConfigOptions) → IsMembers (route_rest o)
unfolding route_rest
route_rest-IsMembers o = search (json_text, bool_text-IsValue) depth 14 fits 9000

route_value-IsValue :
    (o : ConfigOptions) → NoBlank o.split_tunnel_app_paths → IsValue (route_value o)
unfolding route_value
route_value-IsValue o filled =
    let rules = route_rules-IsValue o filled in
    search (json_text, if-IsValue, rules, route_rest-IsMembers) depth 14 fits 9000

-- x
pub new_sing_box_config-IsValue :
    (p : Profile) (o : ConfigOptions)
    → NoBlank o.split_tunnel_app_paths
    → Ensures IsValue (new_sing_box_config p o)
unfolding new_sing_box_config
new_sing_box_config-IsValue p o filled =
    Ensures-bind IsValue IsValue (sing_box_outbound_json p o.outbound_bind_interface) _
      (sing_box_outbound_json-IsValue p o.outbound_bind_interface)
      (λ outbound h.
        let inbound =
          if-IsValue (is_tun o) _ _ (sing_box_tun_inbound-IsValue p o) mixed_inbound-IsValue in
        let ins =
          array_text-IsValue ((if is_tun o then sing_box_tun_inbound p o else mixed_inbound) ∷ [])
            (inbound, tt) in
        let outs =
          array_text-IsValue
            (outbound
              ∷ object "type" (quoted (codes "direct")) (string_member "tag" (codes "direct"))
              ∷ [])
            (h, ((search json_text depth 12 fits 9000), tt)) in
        let route = route_value-IsValue o filled in
        search (json_text, log_value-IsValue, sing_box_dns_member-IsMembers, ins, outs, route) depth
          14 fits 9000)

-- Whatever profile and options are given as texts, a configuration that build_core_config returns,
-- for sing-box or for Xray, is one JSON value after RFC 8259, if the profile carries no
-- configuration of its own and no application path among the options is blank. Bytes outside ASCII
-- may stand in its strings: that they are UTF-8 is not part of the statement.
pub build_core_config-IsValue :
    {N : Type 0} (D : Doubles N) (profile_json options_json : Bytes)
    → (profile_from_json profile_json).sing_box_config_json ≡ []
    → (profile_from_json profile_json).xray_config_json ≡ []
    → NoBlank (options_from_json options_json).split_tunnel_app_paths
    → Ensures IsValue (build_core_config D profile_json options_json)
unfolding build_core_config build_sing_box_config
build_core_config-IsValue D profile_json options_json no_sing_box no_xray filled =
    let p = profile_from_json profile_json in
    let o = options_from_json options_json in
    if-Ensures IsValue (is o.core "singBox") _ _
      (rw (ap (λ s. is_empty s) no_sing_box) (new_sing_box_config-IsValue p o filled))
      (if-Ensures IsValue (is o.core "xray") _ _ (build_xray_config-IsValue p o no_xray) tt)
