-- ===== src/Config/Xray/WellFormed.antt =====
-- The outbound of Xray and its domain rule are JSON.
use entropy_vpn.Base.{not, Bytes, refl, is_empty}
use entropy_vpn.Config.Fragments.Rows.{write_object-IsValue}
use entropy_vpn.Config.Fragments.WellFormed.{
  IsValue, IsMembers, Ensures, Ensures-bind, Ensures-bind_any, if-Ensures, if-IsMembers, json_text,
  nil-IsMembers,
}
use entropy_vpn.Config.Fragments.{require_value}
use entropy_vpn.Config.Options.{ConfigOptions}
use entropy_vpn.Config.Xray.{
  tls_settings, reality_settings, transport_settings, xray_stream_json, settings, vless_settings,
  vmess_settings, trojan_settings, shadowsocks_settings, protocol_settings, xray_outbound_json,
}
use entropy_vpn.Profile.{Profile}
use entropy_vpn.Result.{throw_if}
use entropy_vpn.Share.Words.{is}

tls_settings-IsValue : (p : Profile) → IsValue (tls_settings p)
unfolding tls_settings
tls_settings-IsValue p = write_object-IsValue _ (refl, (refl, (refl, (refl, tt))))

reality_settings-IsMembers : (p : Profile) → Ensures IsMembers (reality_settings p)
unfolding reality_settings
reality_settings-IsMembers p =
    if-Ensures IsMembers (not (is p.tls_mode "reality")) _ _ nil-IsMembers (
      Ensures-bind_any IsMembers (require_value p.public_key "REALITY public key") _
        (λ password. search json_text depth 14 fits 9000))

transport_settings-IsMembers : (p : Profile) → IsMembers (transport_settings p)
unfolding transport_settings
transport_settings-IsMembers p = search (json_text, if-IsMembers) depth 16 fits 9000

xray_stream_json-IsValue :
    (p : Profile) (bind_interface : Bytes) → Ensures IsValue (xray_stream_json p bind_interface)
unfolding xray_stream_json
xray_stream_json-IsValue p bind_interface =
    Ensures-bind_any IsValue (throw_if (is p.transport "quic") _) _ (λ go.
      Ensures-bind IsValue IsMembers (reality_settings p) _ (reality_settings-IsMembers p)
        (λ reality h.
          search (json_text, tls_settings-IsValue, transport_settings-IsMembers) depth 16 fits
            9000))

settings-IsMembers :
    (p : Profile) (server fields : Bytes) → IsMembers fields → IsMembers (settings p server fields)
unfolding settings
settings-IsMembers p server fields h = search json_text depth 14 fits 9000

vless_settings-IsMembers :
    (p : Profile) (server : Bytes) → Ensures IsMembers (vless_settings p server)
unfolding vless_settings
vless_settings-IsMembers p server =
    Ensures-bind_any IsMembers (require_value p.user_id "VLESS user ID") _
      (λ user_id. search (json_text, settings-IsMembers) depth 14 fits 9000)

vmess_settings-IsMembers :
    (p : Profile) (server : Bytes) → Ensures IsMembers (vmess_settings p server)
unfolding vmess_settings
vmess_settings-IsMembers p server =
    Ensures-bind_any IsMembers (require_value p.user_id "VMess user ID") _
      (λ user_id. search (json_text, settings-IsMembers) depth 14 fits 9000)

trojan_settings-IsMembers :
    (p : Profile) (server : Bytes) → Ensures IsMembers (trojan_settings p server)
unfolding trojan_settings
trojan_settings-IsMembers p server =
    Ensures-bind_any IsMembers (require_value p.password "Trojan password") _
      (λ password. search (json_text, settings-IsMembers) depth 14 fits 9000)

shadowsocks_settings-IsMembers :
    (p : Profile) (server : Bytes) → Ensures IsMembers (shadowsocks_settings p server)
unfolding shadowsocks_settings
shadowsocks_settings-IsMembers p server =
    Ensures-bind_any IsMembers (throw_if (not (is_empty p.plugin)) _) _ (λ go.
      Ensures-bind_any IsMembers (require_value p.method "Shadowsocks method") _ (λ method.
        Ensures-bind_any IsMembers (require_value p.password "Shadowsocks password") _
          (λ password. search (json_text, settings-IsMembers) depth 14 fits 9000)))

protocol_settings-IsMembers :
    (p : Profile) (server : Bytes) → Ensures IsMembers (protocol_settings p server)
unfolding protocol_settings
protocol_settings-IsMembers p server =
    if-Ensures IsMembers (is p.protocol "vless") _ _ (vless_settings-IsMembers p server) (
      if-Ensures IsMembers (is p.protocol "vmess") _ _ (vmess_settings-IsMembers p server) (
        if-Ensures IsMembers (is p.protocol "trojan") _ _ (trojan_settings-IsMembers p server) (
          if-Ensures IsMembers (is p.protocol "shadowsocks") _ _
            (shadowsocks_settings-IsMembers p server) tt)))

-- Whatever profile and options are given, an outbound that xray_outbound_json returns is one JSON
-- value after RFC 8259, with its strings escaped and its numbers without leading zeros. Bytes
-- outside ASCII may stand in its strings: that they are UTF-8 is not part of the statement.
pub xray_outbound_json-IsValue :
    (p : Profile) (options : ConfigOptions) → Ensures IsValue (xray_outbound_json p options)
unfolding xray_outbound_json
xray_outbound_json-IsValue p options =
    Ensures-bind IsValue IsMembers (protocol_settings p _) _ (protocol_settings-IsMembers p _)
      (λ fields hf.
        Ensures-bind IsValue IsValue (xray_stream_json p options.outbound_bind_interface) _
          (xray_stream_json-IsValue p options.outbound_bind_interface)
          (λ stream hs. search json_text depth 14 fits 9000))
