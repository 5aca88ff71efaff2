-- ===== src/Config/SingBox.antt =====
-- `sing_box_transport_json`, `sing_box_tls_json` and `sing_box_outbound_json` of
-- native/share_link_parser.cpp.
pub mod WellFormed
use entropy_vpn.Base.{
  Bool, ◌||◌, ◌&&◌, not, [], ◌++◌, Bytes, codes, if◌then◌else◌, is_empty, is_positive,
}
use entropy_vpn.Config.Fragments.{
  require_value, require_positive_int, member, string_member, when, filled_member, filled_array,
  object,
}
use entropy_vpn.Json.Writer.{quoted, quoted_array}
use entropy_vpn.Number.{write_int}
use entropy_vpn.Profile.{Profile, or_default}
use entropy_vpn.Result.{Result, ok, err, ◌>>=◌}
use entropy_vpn.Share.Words.{is}
use entropy_vpn.Text.{trim}

-- An empty text stands for no transport.
unfoldable pub sing_box_transport_json : Profile → Result Bytes
sing_box_transport_json p =
    let path = quoted (or_default p.path (codes "/")) in
    if is p.transport "raw"
    then ok []
    else if is p.transport "ws"
    then ok (
        object "type" (quoted (codes "ws")) (
          member "path" path
          ++ when (not (is_empty p.host)) (member "headers" (object "Host" (quoted p.host) []))))
    else if is p.transport "grpc"
    then ok (
        object "type" (quoted (codes "grpc"))
          (string_member "service_name" (or_default p.service_name (codes "grpc"))))
    else if is p.transport "http"
    then ok (
        object "type" (quoted (codes "http")) (
          member "path" path
          ++ when (not (is_empty p.host))
              (member "host" (codes "[" ++ quoted p.host ++ codes "]"))))
    else if is p.transport "httpUpgrade"
    then ok (
        object "type" (quoted (codes "httpupgrade"))
          (member "path" path ++ filled_member "host" p.host))
    else if is p.transport "quic"
    then ok (object "type" (quoted (codes "quic")) [])
    else if is p.transport "xhttp"
    then err (codes "XHTTP transport is only supported by Xray.")
    else ok []

reality_member : Profile → Result Bytes
reality_member p = if not (is p.tls_mode "reality") then ok [] else do
  public_key ← require_value p.public_key "REALITY public key"
  ok (
      member "reality" (
        object "enabled" (codes "true")
          (string_member "public_key" public_key ++ string_member "short_id" p.short_id)))

utls_member : Profile → Bytes
utls_member p = when (not (is_empty p.fingerprint) || is p.tls_mode "reality") (
    member "utls" (
      object "enabled" (codes "true")
        (string_member "fingerprint" (or_default p.fingerprint (codes "chrome")))))

-- An empty text stands for no TLS.
unfoldable pub sing_box_tls_json : Profile → Result Bytes
unfolding reality_member utls_member
sing_box_tls_json p = if is p.tls_mode "none" || is_empty p.tls_mode then ok [] else do
  reality ← reality_member p
  ok (
      object "enabled" (codes "true") (
        filled_member "server_name" p.sni
        ++ when p.allow_insecure (member "insecure" (codes "true"))
        ++ filled_array "alpn" p.alpn
        ++ utls_member p
        ++ reality))

vless_members : Profile → Result Bytes
vless_members p = do
  user_id ← require_value p.user_id "VLESS user ID"
  ok (
      string_member "type" (codes "vless")
      ++ string_member "server" p.server
      ++ member "server_port" (write_int p.port)
      ++ string_member "uuid" user_id
      ++ string_member "flow" p.flow
      ++ string_member "packet_encoding" (codes "xudp"))

vmess_members : Profile → Result Bytes
vmess_members p = do
  user_id ← require_value p.user_id "VMess user ID"
  ok (
      string_member "type" (codes "vmess")
      ++ string_member "server" p.server
      ++ member "server_port" (write_int p.port)
      ++ string_member "uuid" user_id
      ++ string_member "security" (or_default p.security (codes "auto"))
      ++ member "alter_id" (write_int p.alter_id)
      ++ string_member "packet_encoding" (codes "xudp"))

trojan_members : Profile → Result Bytes
trojan_members p = do
  password ← require_value p.password "Trojan password"
  ok (
      string_member "type" (codes "trojan")
      ++ string_member "server" p.server
      ++ member "server_port" (write_int p.port)
      ++ string_member "password" password)

shadowsocks_members : Profile → Result Bytes
shadowsocks_members p = do
  method ← require_value p.method "Shadowsocks method"
  password ← require_value p.password "Shadowsocks password"
  ok (
      string_member "type" (codes "shadowsocks")
      ++ string_member "server" p.server
      ++ member "server_port" (write_int p.port)
      ++ string_member "method" method
      ++ string_member "password" password
      ++ when (not (is_empty p.plugin))
          (string_member "plugin" p.plugin ++ string_member "plugin_opts" p.plugin_opts))

hysteria_members : Profile → Result Bytes
hysteria_members p = do
  upload ← require_positive_int p.upload_mbps "Hysteria upload bandwidth"
  download ← require_positive_int p.download_mbps "Hysteria download bandwidth"
  ok (
      string_member "type" (codes "hysteria")
      ++ string_member "server" p.server
      ++ member "server_port" (write_int p.port)
      ++ member "up_mbps" (write_int upload)
      ++ member "down_mbps" (write_int download)
      ++ filled_member "auth_str" p.password
      ++ filled_member "network" p.hysteria_network
      ++ filled_member "obfs" p.obfs_password)

obfs_member : Profile → Result Bytes
obfs_member p = if is_empty p.obfs && is_empty p.obfs_password then ok [] else do
  password ← require_value p.obfs_password "Hysteria2 obfs password"
  ok (
      member "obfs" (
        object "type" (quoted (or_default p.obfs (codes "salamander")))
          (string_member "password" password)))

hysteria2_members : Profile → Result Bytes
unfolding obfs_member
hysteria2_members p = do
  obfs ← obfs_member p
  ok (
      string_member "type" (codes "hysteria2")
      ++ string_member "server" p.server
      ++ (if is_empty p.server_ports
          then member "server_port" (write_int p.port)
          else member "server_ports" (quoted_array p.server_ports))
      ++ filled_member "password" p.password
      ++ when (is_positive p.upload_mbps) (member "up_mbps" (write_int p.upload_mbps))
      ++ when (is_positive p.download_mbps) (member "down_mbps" (write_int p.download_mbps))
      ++ filled_member "network" p.hysteria_network
      ++ obfs)

protocol_members : Profile → Result Bytes
unfolding vless_members vmess_members trojan_members shadowsocks_members hysteria_members
    hysteria2_members
protocol_members p =
    if is p.protocol "vless"
    then vless_members p
    else if is p.protocol "vmess"
    then vmess_members p
    else if is p.protocol "trojan"
    then trojan_members p
    else if is p.protocol "shadowsocks"
    then shadowsocks_members p
    else if is p.protocol "hysteria"
    then hysteria_members p
    else if is p.protocol "hysteria2"
    then hysteria2_members p
    else err (codes "Unsupported protocol: " ++ p.protocol)

-- Only the protocols that run over a transport have one.
transport_text : Profile → Result Bytes
transport_text p =
    if is p.protocol "vless" || is p.protocol "vmess" || is p.protocol "trojan"
    then sing_box_transport_json p
    else ok []

unfoldable pub sing_box_outbound_json : Profile → Bytes → Result Bytes
unfolding protocol_members transport_text
sing_box_outbound_json p bind_interface = do
  fields ← protocol_members p
  transport ← transport_text p
  tls ← sing_box_tls_json p
  ok (
      object "tag" (quoted (codes "proxy")) (
        filled_member "bind_interface" (trim bind_interface)
        ++ fields
        ++ when (not (is_empty transport)) (member "transport" transport)
        ++ when (not (is_empty tls)) (member "tls" tls)))
