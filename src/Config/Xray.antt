-- ===== src/Config/Xray.antt =====
-- `xray_stream_json`, `xray_outbound_json` and `append_xray_domain_rule` of
-- native/share_link_parser.cpp.
pub mod WellFormed
use entropy_vpn.Base.{
  Bool, ◌||◌, not, List, [], ◌∷◌, ◌++◌, Bytes, codes, if◌then◌else◌, is_empty, map, drop,
}
use entropy_vpn.Config.Fragments.{
  require_value, member, string_member, when, filled_member, filled_array, object,
}
use entropy_vpn.Config.Matchers.{sorted_unique}
use entropy_vpn.Config.Options.{ConfigOptions}
use entropy_vpn.Json.Rows.{string_field, bool_field, array_field, write_object}
use entropy_vpn.Json.Writer.{quoted, quoted_array}
use entropy_vpn.Number.{write_int}
use entropy_vpn.Profile.{Profile, or_default}
use entropy_vpn.Result.{Result, ok, err, ◌>>=◌, ◌>>◌, throw_if}
use entropy_vpn.Share.Words.{is}
use entropy_vpn.Text.{trim}

unfoldable pub network_of : Bytes → Bytes
network_of transport =
    if is transport "raw"
    then codes "raw"
    else if is transport "http"
    then codes "xhttp"
    else if is transport "httpUpgrade"
    then codes "httpupgrade"
    else if is transport "ws"
    then codes "websocket"
    else transport

unfoldable pub security_of : Bytes → Bytes
security_of tls_mode =
    if is tls_mode "reality"
    then codes "reality"
    else if is tls_mode "tls"
    then codes "tls"
    else codes "none"

-- `tlsSettings`, written with the flag `first`.
tls_settings : Profile → Bytes
tls_settings p = write_object (
    (codes "serverName", string_field p.sni)
    ∷ (codes "allowInsecure", bool_field p.allow_insecure)
    ∷ (codes "alpn", array_field p.alpn)
    ∷ (codes "fingerprint", string_field p.fingerprint)
    ∷ [])

reality_settings : Profile → Result Bytes
reality_settings p = if not (is p.tls_mode "reality") then ok [] else do
  password ← require_value p.public_key "REALITY public key"
  ok (
      member "realitySettings" (
        object "serverName" (quoted (or_default p.sni p.server)) (
          string_member "fingerprint" (or_default p.fingerprint (codes "chrome"))
          ++ string_member "password" password
          ++ string_member "shortId" p.short_id
          ++ string_member "spiderX" p.spider_x)))

transport_settings : Profile → Bytes
transport_settings p =
    let path = quoted (or_default p.path (codes "/")) in
    if is p.transport "ws"
    then member "wsSettings" (object "path" path (filled_member "host" p.host))
    else if is p.transport "grpc"
    then member "grpcSettings" (
        object "serviceName" (quoted (or_default p.service_name (codes "grpc")))
          (filled_member "authority" p.authority))
    else if is p.transport "httpUpgrade"
    then member "httpupgradeSettings" (object "path" path (filled_member "host" p.host))
    else if is p.transport "http" || is p.transport "xhttp"
    then member "xhttpSettings"
        (object "path" path (filled_member "host" p.host ++ string_member "mode" (codes "auto")))
    else []

unfoldable pub xray_stream_json : Profile → Bytes → Result Bytes
unfolding tls_settings reality_settings transport_settings
xray_stream_json p bind_interface = do
  throw_if (is p.transport "quic")
      (codes "QUIC transport is not supported for Xray in this desktop wrapper yet.")
  reality ← reality_settings p
  ok (
      object "network" (quoted (network_of p.transport)) (
        string_member "security" (security_of p.tls_mode)
        ++ when (is p.tls_mode "tls") (member "tlsSettings" (tls_settings p))
        ++ reality
        ++ when (not (is_empty (trim bind_interface)))
            (member "sockopt" (object "interface" (quoted (trim bind_interface)) []))
        ++ transport_settings p))

-- `"settings":{"address":...}` of the four protocols; each has the level 0.
settings : Profile → Bytes → Bytes → Bytes
settings p server fields =
    member "settings"
      (object "address" (quoted server) (member "port" (write_int p.port) ++ fields))

vless_settings : Profile → Bytes → Result Bytes
unfolding settings
vless_settings p server = do
  user_id ← require_value p.user_id "VLESS user ID"
  ok (
      string_member "protocol" (codes "vless")
      ++ settings p server (
          string_member "id" user_id
          ++ string_member "encryption" (or_default p.security (codes "none"))
          ++ string_member "flow" p.flow
          ++ member "level" (codes "0")))

vmess_settings : Profile → Bytes → Result Bytes
unfolding settings
vmess_settings p server = do
  user_id ← require_value p.user_id "VMess user ID"
  ok (
      string_member "protocol" (codes "vmess")
      ++ settings p server (
          string_member "id" user_id
          ++ string_member "security" (or_default p.security (codes "auto"))
          ++ member "alterId" (write_int p.alter_id)
          ++ member "level" (codes "0")
          ++ string_member "experiments" []))

trojan_settings : Profile → Bytes → Result Bytes
unfolding settings
trojan_settings p server = do
  password ← require_value p.password "Trojan password"
  ok (
      string_member "protocol" (codes "trojan")
      ++ settings p server (string_member "password" password ++ member "level" (codes "0")))

shadowsocks_settings : Profile → Bytes → Result Bytes
unfolding settings
shadowsocks_settings p server = do
  throw_if (not (is_empty p.plugin))
      (codes "Xray desktop wrapper does not support Shadowsocks plugins yet.")
  method ← require_value p.method "Shadowsocks method"
  password ← require_value p.password "Shadowsocks password"
  ok (
      string_member "protocol" (codes "shadowsocks")
      ++ settings p server (
          string_member "method" method
          ++ string_member "password" password
          ++ member "level" (codes "0")))

protocol_settings : Profile → Bytes → Result Bytes
unfolding vless_settings vmess_settings trojan_settings shadowsocks_settings
protocol_settings p server =
    if is p.protocol "vless"
    then vless_settings p server
    else if is p.protocol "vmess"
    then vmess_settings p server
    else if is p.protocol "trojan"
    then trojan_settings p server
    else if is p.protocol "shadowsocks"
    then shadowsocks_settings p server
    else err (p.protocol ++ codes " links must be run with sing-box.")

unfoldable pub xray_outbound_json : Profile → ConfigOptions → Result Bytes
unfolding protocol_settings
xray_outbound_json p options = do
  fields ← protocol_settings p (or_default (trim options.xray_server_address_override) p.server)
  stream ← xray_stream_json p options.outbound_bind_interface
  ok (object "tag" (quoted (codes "proxy")) (fields ++ member "streamSettings" stream))

-- What the function appends.
unfoldable pub append_xray_domain_rule : ConfigOptions → Bytes → Bytes
append_xray_domain_rule options outbound = object "type" (quoted (codes "field")) (
    member "domain" (
      quoted_array
        (map (λ d. codes "domain:" ++ d) (sorted_unique options.domain_split_tunnel_domains)))
    ++ string_member "outboundTag" outbound)
