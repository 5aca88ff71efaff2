-- ===== src/Config/XrayConfig.antt =====
-- `build_xray_config` of native/share_link_parser.cpp.
pub mod WellFormed
use entropy_vpn.Base.{
  Bool, true, false, not, ◌&&◌, ◌||◌, List, [], ◌∷◌, ◌++◌, Bytes, codes, String, if◌then◌else◌,
  is_empty, map, pos,
}
use entropy_vpn.Config.Dns.{xray_dns_entry, xray_dns_strategy}
use entropy_vpn.Config.Fragments.{member, string_member, when, object}
use entropy_vpn.Config.Options.{ConfigOptions, is_tun}
use entropy_vpn.Config.Xray.{xray_outbound_json, append_xray_domain_rule}
use entropy_vpn.Json.Writer.{quoted, quoted_array}
use entropy_vpn.Number.{write_int}
use entropy_vpn.Profile.{Profile, or_default}
use entropy_vpn.Result.{Result, ok, ◌>>=◌}
use entropy_vpn.Share.Extract.{array_text}
use entropy_vpn.Share.Words.{is}
use entropy_vpn.Text.{trim}

unfoldable pub use_dns_routing : ConfigOptions → Bool
use_dns_routing o = o.is_android && not (is_tun o) || is_tun o

xray_dns_servers : ConfigOptions → List Bytes
xray_dns_servers o =
    map (xray_dns_entry o.dns_mode)
      (if is_empty o.dns_servers then codes "1.1.1.1" ∷ [] else o.dns_servers)

dns_member : ConfigOptions → Bytes
unfolding xray_dns_servers
dns_member o = when (use_dns_routing o) (
    member "dns" (
      object "servers" (quoted_array (xray_dns_servers o)) (
        string_member "queryStrategy" (xray_dns_strategy o.tun_ip_mode)
        ++ when (is_tun o) (string_member "tag" (codes "dns-query")))))

sniffing : Bytes
sniffing =
    object "enabled" (codes "true")
      (member "destOverride" (quoted_array (codes "http" ∷ codes "tls" ∷ codes "quic" ∷ [])))

accounts : ConfigOptions → Bytes
accounts o =
    array_text
      (object "user" (quoted o.socks_username) (string_member "pass" o.socks_password) ∷ [])

have_socks_auth : ConfigOptions → Bool
have_socks_auth o = not (is_empty o.socks_username) && not (is_empty o.socks_password)

socks_settings : ConfigOptions → Bytes
unfolding accounts have_socks_auth
socks_settings o =
    if have_socks_auth o
    then object "auth" (quoted (codes "password"))
        (member "accounts" (accounts o) ++ member "udp" (codes "true"))
    else object "udp" (codes "true") []

socks_inbound : ConfigOptions → Bytes
unfolding sniffing socks_settings
socks_inbound o = object "tag" (quoted (codes "socks-in")) (
    string_member "protocol" (codes "socks")
    ++ string_member "listen" (codes "127.0.0.1")
    ++ member "port" (write_int (pos 2080))
    ++ member "settings" (socks_settings o)
    ++ member "sniffing" sniffing)

http_inbound : ConfigOptions → Bytes
unfolding sniffing accounts have_socks_auth
http_inbound o = object "tag" (quoted (codes "http-in")) (
    string_member "protocol" (codes "http")
    ++ string_member "listen" (codes "127.0.0.1")
    ++ member "port" (write_int (pos 2081))
    ++ when (have_socks_auth o) (member "settings" (object "accounts" (accounts o) []))
    ++ member "sniffing" sniffing)

tun_inbound : ConfigOptions → Bytes
unfolding sniffing
tun_inbound o = object "tag" (quoted (codes "tun-in")) (
    string_member "protocol" (codes "tun")
    ++ member "settings" (
        object "name" (quoted (or_default (trim o.tun_interface_name) (codes "xray0")))
          (member "MTU" (write_int (pos 1400)) ++ member "userLevel" (codes "0")))
    ++ when (not (is o.domain_split_tunnel_mode "off")) (member "sniffing" sniffing))

inbounds : ConfigOptions → List Bytes
unfolding socks_inbound http_inbound tun_inbound
inbounds o = if is_tun o then tun_inbound o ∷ [] else socks_inbound o ∷ http_inbound o ∷ []

-- One more item, where the test holds.
abbrev pub item_if : Bool → Bytes → List Bytes → List Bytes
item_if test item later = if test then item ∷ later else later

reject_type : Bytes → Bytes
reject_type qtype = member "settings" (
    object "rules"
      (array_text (object "action" (quoted (codes "reject")) (member "qtype" qtype) ∷ [])) [])

dns_outbound : ConfigOptions → Bytes
unfolding reject_type
dns_outbound o = object "tag" (quoted (codes "dns-out")) (
    string_member "protocol" (codes "dns")
    ++ when (is o.tun_ip_mode "ipv4") (reject_type (write_int (pos 28)))
    ++ when (is o.tun_ip_mode "ipv6") (reject_type (write_int (pos 1))))

direct_outbound : ConfigOptions → Bytes
direct_outbound o = object "tag" (quoted (codes "direct")) (
    string_member "protocol" (codes "freedom")
    ++ when (is_tun o && not (is_empty (trim o.outbound_bind_interface))) (
        member "streamSettings"
          (object "sockopt" (object "interface" (quoted (trim o.outbound_bind_interface)) []) [])))

block_outbound : Bytes
block_outbound =
    object "tag" (quoted (codes "block")) (string_member "protocol" (codes "blackhole"))

outbounds : ConfigOptions → Bytes → List Bytes
unfolding dns_outbound direct_outbound block_outbound
outbounds o proxy =
    proxy ∷ item_if (use_dns_routing o) (dns_outbound o) (direct_outbound o ∷ block_outbound ∷ [])

dns_rule : ConfigOptions → Bytes
dns_rule o = object "type" (quoted (codes "field")) (
    member "inboundTag"
      (quoted_array ((if is_tun o then codes "tun-in" else codes "socks-in") ∷ []))
    ++ string_member "port" (codes "53")
    ++ string_member "outboundTag" (codes "dns-out"))

query_rule : Bytes
query_rule = object "type" (quoted (codes "field")) (
    member "inboundTag" (quoted_array (codes "dns-query" ∷ []))
    ++ string_member "outboundTag" (codes "proxy"))

quic_rule : Bytes
quic_rule = object "type" (quoted (codes "field")) (
    string_member "network" (codes "udp")
    ++ string_member "port" (codes "443")
    ++ string_member "outboundTag" (codes "block"))

rest_rule : Bytes
rest_rule =
    object "type" (quoted (codes "field"))
      (string_member "network" (codes "tcp,udp") ++ string_member "outboundTag" (codes "direct"))

abbrev domain_mode : ConfigOptions → String → Bool
domain_mode o mode =
    is o.domain_split_tunnel_mode mode && not (is_empty o.domain_split_tunnel_domains)

-- The rules in their order; a comma stands in front of each but the first.
rules : ConfigOptions → List Bytes
unfolding dns_rule query_rule quic_rule rest_rule
rules o = item_if (use_dns_routing o) (dns_rule o) (
    item_if (is_tun o) query_rule (
      item_if (is_tun o) quic_rule (
        item_if (domain_mode o "whitelist" || domain_mode o "blacklist")
          (append_xray_domain_rule o
            (if domain_mode o "whitelist" then codes "proxy" else codes "direct"))
          (item_if (is o.domain_split_tunnel_mode "whitelist") rest_rule []))))

routing_member : ConfigOptions → Bytes
unfolding rules
routing_member o =
    when (use_dns_routing o || is_tun o || domain_mode o "whitelist" || domain_mode o "blacklist") (
      member "routing"
        (object "domainStrategy" (quoted (codes "AsIs")) (member "rules" (array_text (rules o)))))

-- A configuration that the profile carries is returned as it is.
unfoldable pub build_xray_config : Profile → ConfigOptions → Result Bytes
unfolding dns_member inbounds outbounds routing_member
build_xray_config p o = if not (is_empty p.xray_config_json) then ok p.xray_config_json else do
  proxy ← xray_outbound_json p o
  ok (
      object "log" (object "loglevel" (quoted (codes "warning")) []) (
        dns_member o
        ++ member "inbounds" (array_text (inbounds o))
        ++ member "outbounds" (array_text (outbounds o proxy))
        ++ routing_member o))
