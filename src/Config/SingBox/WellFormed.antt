-- ===== src/Config/SingBox/WellFormed.antt =====
-- The outbound of sing-box is JSON.
use entropy_vpn.Base.{not, ◌||◌, ◌&&◌, Bytes, refl, is_empty, Bool-cases, inl, inr}
use entropy_vpn.Config.Fragments.WellFormed.{
  IsValue, IsMembers, IsOptional, IsOptional-IsMembers, Ensures, Ensures-bind, Ensures-bind_any,
  if-Ensures, if-IsMembers, one_item-IsValue, json_text, nil-IsMembers,
}
use entropy_vpn.Config.Fragments.{require_value, require_positive_int}
use entropy_vpn.Config.SingBox.{
  sing_box_transport_json, reality_member, utls_member, sing_box_tls_json, vless_members,
  vmess_members, trojan_members, shadowsocks_members, hysteria_members, obfs_member,
  hysteria2_members, protocol_members, transport_text, sing_box_outbound_json,
}
use entropy_vpn.Profile.{Profile}
use entropy_vpn.Share.Words.{is}

vless_members-IsMembers : (p : Profile) → Ensures IsMembers (vless_members p)
unfolding vless_members
vless_members-IsMembers p =
    Ensures-bind_any IsMembers (require_value p.user_id "VLESS user ID") _
      (λ user_id. search json_text depth 14)

vmess_members-IsMembers : (p : Profile) → Ensures IsMembers (vmess_members p)
unfolding vmess_members
vmess_members-IsMembers p =
    Ensures-bind_any IsMembers (require_value p.user_id "VMess user ID") _
      (λ user_id. search json_text depth 14)

trojan_members-IsMembers : (p : Profile) → Ensures IsMembers (trojan_members p)
unfolding trojan_members
trojan_members-IsMembers p =
    Ensures-bind_any IsMembers (require_value p.password "Trojan password") _
      (λ password. search json_text depth 14)

shadowsocks_members-IsMembers : (p : Profile) → Ensures IsMembers (shadowsocks_members p)
unfolding shadowsocks_members
shadowsocks_members-IsMembers p =
    Ensures-bind_any IsMembers (require_value p.method "Shadowsocks method") _ (λ method.
      Ensures-bind_any IsMembers (require_value p.password "Shadowsocks password") _
        (λ password. search json_text depth 14))

hysteria_members-IsMembers : (p : Profile) → Ensures IsMembers (hysteria_members p)
unfolding hysteria_members
hysteria_members-IsMembers p =
    Ensures-bind_any IsMembers (require_positive_int p.upload_mbps "Hysteria upload bandwidth") _
      (λ upload.
        Ensures-bind_any IsMembers
          (require_positive_int p.download_mbps "Hysteria download bandwidth") _
          (λ download. search json_text depth 14 fits 9000))

obfs_member-IsMembers : (p : Profile) → Ensures IsMembers (obfs_member p)
unfolding obfs_member
obfs_member-IsMembers p = elim (Bool-cases (is_empty p.obfs && is_empty p.obfs_password)) [
  | inl off ↦ rw off nil-IsMembers
  | inr on ↦ rw on (
      Ensures-bind_any IsMembers (require_value p.obfs_password "Hysteria2 obfs password") _
        (λ password. search json_text depth 14))
]

hysteria2_members-IsMembers : (p : Profile) → Ensures IsMembers (hysteria2_members p)
unfolding hysteria2_members
hysteria2_members-IsMembers p =
    Ensures-bind IsMembers IsMembers (obfs_member p) _ (obfs_member-IsMembers p)
      (λ obfs h. search (json_text, if-IsMembers) depth 16 fits 9000)

protocol_members-IsMembers : (p : Profile) → Ensures IsMembers (protocol_members p)
unfolding protocol_members
protocol_members-IsMembers p =
    if-Ensures IsMembers (is p.protocol "vless") _ _ (vless_members-IsMembers p) (
      if-Ensures IsMembers (is p.protocol "vmess") _ _ (vmess_members-IsMembers p) (
        if-Ensures IsMembers (is p.protocol "trojan") _ _ (trojan_members-IsMembers p) (
          if-Ensures IsMembers (is p.protocol "shadowsocks") _ _ (shadowsocks_members-IsMembers p) (
            if-Ensures IsMembers (is p.protocol "hysteria") _ _ (hysteria_members-IsMembers p) (
              if-Ensures IsMembers (is p.protocol "hysteria2") _ _ (hysteria2_members-IsMembers p)
                tt)))))

utls_member-IsMembers : (p : Profile) → IsMembers (utls_member p)
unfolding utls_member
utls_member-IsMembers p = search json_text depth 14

reality_member-IsMembers : (p : Profile) → Ensures IsMembers (reality_member p)
unfolding reality_member
reality_member-IsMembers p =
    if-Ensures IsMembers (not (is p.tls_mode "reality")) _ _ nil-IsMembers (
      Ensures-bind_any IsMembers (require_value p.public_key "REALITY public key") _
        (λ public_key. search json_text depth 14))

sing_box_tls_json-IsOptional : (p : Profile) → Ensures IsOptional (sing_box_tls_json p)
unfolding sing_box_tls_json
sing_box_tls_json-IsOptional p =
    if-Ensures IsOptional (is p.tls_mode "none" || is_empty p.tls_mode) _ _ (inl refl) (
      Ensures-bind IsOptional IsMembers (reality_member p) _ (reality_member-IsMembers p)
        (λ reality h. inr (search (json_text, utls_member-IsMembers) depth 16 fits 9000)))

sing_box_transport_json-IsOptional : (p : Profile) → Ensures IsOptional (sing_box_transport_json p)
unfolding sing_box_transport_json
sing_box_transport_json-IsOptional p = if-Ensures IsOptional (is p.transport "raw") _ _ (inl refl) (
    if-Ensures IsOptional (is p.transport "ws") _ _ (inr (search json_text depth 14)) (
      if-Ensures IsOptional (is p.transport "grpc") _ _ (inr (search json_text depth 14)) (
        if-Ensures IsOptional (is p.transport "http") _ _
          (inr (search (json_text, one_item-IsValue) depth 14))
          (if-Ensures IsOptional (is p.transport "httpUpgrade") _ _
            (inr (search json_text depth 14))
            (if-Ensures IsOptional (is p.transport "quic") _ _ (inr (search json_text depth 14))
              (if-Ensures IsOptional (is p.transport "xhttp") _ _ tt (inl refl)))))))

transport_text-IsOptional : (p : Profile) → Ensures IsOptional (transport_text p)
unfolding transport_text
transport_text-IsOptional p =
    if-Ensures IsOptional (is p.protocol "vless" || is p.protocol "vmess" || is p.protocol "trojan")
      _ _ (sing_box_transport_json-IsOptional p) (inl refl)

-- Whatever profile and interface are given, an outbound that sing_box_outbound_json returns is one
-- JSON value after RFC 8259, with its strings escaped and its numbers without leading zeros. Bytes
-- outside ASCII may stand in its strings: that they are UTF-8 is not part of the statement.
pub sing_box_outbound_json-IsValue :
    (p : Profile) (bind_interface : Bytes)
    → Ensures IsValue (sing_box_outbound_json p bind_interface)
unfolding sing_box_outbound_json
sing_box_outbound_json-IsValue p bind_interface =
    Ensures-bind IsValue IsMembers (protocol_members p) _ (protocol_members-IsMembers p)
      (λ fields hf.
        Ensures-bind IsValue IsOptional (transport_text p) _ (transport_text-IsOptional p)
          (λ transport ht.
            Ensures-bind IsValue IsOptional (sing_box_tls_json p) _ (sing_box_tls_json-IsOptional p)
              (λ tls hl. search (json_text, IsOptional-IsMembers) depth 16)))
