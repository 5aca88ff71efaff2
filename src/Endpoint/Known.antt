-- ===== src/Endpoint/Known.antt =====
-- What every endpoint has: a protocol, a transport and a TLS mode that the rest of the program knows.
use entropy_vpn.Base.{
  Bool, true, false, ◌||◌, List, [], ◌∷◌, Option, none, some, Bytes, codes, String, inl, refl,
  if◌then◌else◌, is_empty, arith, bytes_eq_iff,
}
use entropy_vpn.Endpoint.Read.{
  core_transport, protocol_for_core_protocol, json_non_empty, first_json_object,
}
use entropy_vpn.Endpoint.Resolve.{
  tagged, resolve_final, or_endpoint, extract_sing_box_endpoint, has_server,
}
use entropy_vpn.Endpoint.SingBox.{
  sing_box_transport, sing_box_tls_mode, with_obfs, fill_sing_box, endpoint_from_sing_box_outbound,
}
use entropy_vpn.Endpoint.Xray.{
  xray_transport, xray_tls_mode, fill_xray_stream, with_first_user, with_item_user,
  with_item_secret, at_server, nested_endpoint, flat_endpoint, first_endpoint, settings_endpoint,
  endpoint_from_xray_outbound, first_with_server, extract_xray_endpoint, server_of,
}
use entropy_vpn.Json.Value.{Doubles, Json, is_object, is_array, elements}
use entropy_vpn.Profile.{Profile, new_profile}
use entropy_vpn.Share.Complete.{OneOf, transports, tls_modes}
use entropy_vpn.Share.Words.{is}
use entropy_vpn.Text.{lower}
use entropy_vpn.Tun.Fields.{get}

abbrev pub protocols : List Bytes
protocols =
    []
    ∷ codes "vless"
    ∷ codes "vmess"
    ∷ codes "trojan"
    ∷ codes "shadowsocks"
    ∷ codes "hysteria"
    ∷ codes "hysteria2"
    ∷ []

-- The empty protocol is that of a profile that nothing was written to.
pub record IsKnown (p : Profile) : Type 0 where
  pub protocol_known : OneOf p.protocol protocols
  pub transport_known : OneOf p.transport transports
  pub tls_known : OneOf p.tls_mode tls_modes

core_transport-OneOf : (network : Bytes) → OneOf (core_transport network) transports
unfolding core_transport
core_transport-OneOf network = ground arith

protocol-OneOf : (protocol : Bytes) → OneOf (protocol_for_core_protocol protocol) protocols
unfolding protocol_for_core_protocol
protocol-OneOf protocol =
    let names = λ (name : String). (bytes_eq_iff protocol (codes name)).0 in
    let vmess = names "vmess" in
    let trojan = names "trojan" in
    let shadowsocks = names "shadowsocks" in
    let hysteria = names "hysteria" in
    let hysteria2 = names "hysteria2" in
    ground (arith, vmess, trojan, shadowsocks, hysteria, hysteria2)

new_profile-IsKnown : IsKnown new_profile
new_profile-IsKnown = record {
  protocol_known = inl refl;
  transport_known = inl refl;
  tls_known = inl refl;
}

if-IsKnown : (b : Bool) (p q : Profile) → IsKnown p → IsKnown q → IsKnown (if b then p else q)
if-IsKnown true p q hp hq = hp
if-IsKnown false p q hp hq = hq

first_with_server-IsKnown :
    {N : Type 0} (endpoint : Json N → Profile)
    → ((v : Json N) → IsKnown (endpoint v))
    → (vs : List (Json N)) → IsKnown (first_with_server endpoint vs)
unfolding first_with_server
first_with_server-IsKnown endpoint h [] = new_profile-IsKnown
first_with_server-IsKnown endpoint h (v ∷ vs) =
    let later = first_with_server-IsKnown endpoint h vs in
    if-IsKnown (is_object v) _ _ (if-IsKnown (is_empty (endpoint v).server) _ _ later (h v)) later

module _ {N : Type 0} (D : Doubles N) where
  sing_box_tls_mode-OneOf : (tls : Json N) → OneOf (sing_box_tls_mode D tls) tls_modes
  unfolding sing_box_tls_mode
  sing_box_tls_mode-OneOf tls = ground arith

  xray_tls_mode-OneOf : (stream : Json N) → OneOf (xray_tls_mode D stream) tls_modes
  unfolding xray_tls_mode
  xray_tls_mode-OneOf stream = ground arith

  fill_sing_box-IsKnown :
      (type : Bytes) (outbound : Json N) → IsKnown (fill_sing_box D type outbound)
  unfolding fill_sing_box with_obfs sing_box_transport
  fill_sing_box-IsKnown type outbound =
      if-IsKnown (is_object (get outbound "obfs")) _ _
        (record {
          protocol_known = protocol-OneOf type;
          transport_known = core_transport-OneOf _;
          tls_known = sing_box_tls_mode-OneOf (get outbound "tls");
        })
        (record {
          protocol_known = protocol-OneOf type;
          transport_known = core_transport-OneOf _;
          tls_known = sing_box_tls_mode-OneOf (get outbound "tls");
        })

  sing_box_outbound-IsKnown :
      (outbound : Json N) → IsKnown (endpoint_from_sing_box_outbound D outbound)
  unfolding endpoint_from_sing_box_outbound
  sing_box_outbound-IsKnown outbound =
      if-IsKnown _ _ _ new_profile-IsKnown (fill_sing_box-IsKnown _ outbound)

  or_endpoint-IsKnown :
      (o : Option (Json N)) (p : Profile) → IsKnown p → IsKnown (or_endpoint D o p)
  unfolding or_endpoint
  or_endpoint-IsKnown none p h = h
  or_endpoint-IsKnown (some v) p h = if-IsKnown (has_server D v) _ _ (sing_box_outbound-IsKnown v) h

  -- What a profile gets from the stream.
  abbrev KnownProtocol : Profile → Type 0
  KnownProtocol p = OneOf p.protocol protocols

  fill_xray_stream-IsKnown :
      (stream : Json N) (p : Profile) → KnownProtocol p → IsKnown (fill_xray_stream D stream p)
  unfolding fill_xray_stream xray_transport
  fill_xray_stream-IsKnown stream p h = record {
    protocol_known = h;
    transport_known = core_transport-OneOf _;
    tls_known = xray_tls_mode-OneOf stream;
  }

  with_first_user-KnownProtocol :
      (o : Option (Json N)) (p : Profile) → KnownProtocol p → KnownProtocol (with_first_user D o p)
  unfolding with_first_user with_item_user
  with_first_user-KnownProtocol none p h = h
  with_first_user-KnownProtocol (some user) p h = h

  nested_endpoint-KnownProtocol :
      (user : Bool) (item : Json N) (protocol : Bytes)
      → KnownProtocol (nested_endpoint D user item protocol)
  unfolding nested_endpoint at_server with_item_secret
  nested_endpoint-KnownProtocol true item protocol =
      with_first_user-KnownProtocol (first_json_object (get item "users")) _
        (protocol-OneOf protocol)
  nested_endpoint-KnownProtocol false item protocol = protocol-OneOf protocol

  flat_endpoint-KnownProtocol :
      (user : Bool) (settings : Json N) (protocol : Bytes)
      → KnownProtocol (flat_endpoint D user settings protocol)
  unfolding flat_endpoint at_server with_item_secret with_item_user
  flat_endpoint-KnownProtocol true settings protocol = protocol-OneOf protocol
  flat_endpoint-KnownProtocol false settings protocol = protocol-OneOf protocol

  first_endpoint-IsKnown :
      (user : Bool) (protocol : Bytes) (stream : Json N) (items : List (Json N))
      → IsKnown (first_endpoint D user protocol stream items)
  unfolding first_endpoint
  first_endpoint-IsKnown user protocol stream [] = new_profile-IsKnown
  first_endpoint-IsKnown user protocol stream (item ∷ items) =
      let later = first_endpoint-IsKnown user protocol stream items in
      if-IsKnown (is_object item) _ _
        (if-IsKnown _ _ _ later (
          fill_xray_stream-IsKnown stream (nested_endpoint D user item protocol)
            (nested_endpoint-KnownProtocol user item protocol)))
        later

  settings_endpoint-IsKnown :
      (user : Bool) (key : String) (protocol : Bytes) (settings stream : Json N)
      → IsKnown (settings_endpoint D user key protocol settings stream)
  unfolding settings_endpoint
  settings_endpoint-IsKnown user key protocol settings stream =
      if-IsKnown (is_array (get settings key)) _ _
        (first_endpoint-IsKnown user protocol stream (elements (get settings key)))
        (if-IsKnown (is_empty (server_of D settings)) _ _ new_profile-IsKnown (
          fill_xray_stream-IsKnown stream (flat_endpoint D user settings protocol)
            (flat_endpoint-KnownProtocol user settings protocol)))

  xray_outbound-IsKnown : (outbound : Json N) → IsKnown (endpoint_from_xray_outbound D outbound)
  unfolding endpoint_from_xray_outbound
  xray_outbound-IsKnown outbound =
      let protocol = lower (json_non_empty D (get outbound "protocol")) in
      let settings = get outbound "settings" in
      let stream = get outbound "streamSettings" in
      if-IsKnown (is protocol "vless" || is protocol "vmess") _ _
        (settings_endpoint-IsKnown true "vnext" protocol settings stream)
        (if-IsKnown (is protocol "trojan" || is protocol "shadowsocks") _ _
          (settings_endpoint-IsKnown false "servers" protocol settings stream) new_profile-IsKnown)

  -- Whatever value is given, the endpoints that extract_sing_box_endpoint and extract_xray_endpoint
  -- return have a transport and a TLS mode that the rest of the program knows, and one of its six
  -- protocols or none.
  pub extract_endpoint-IsKnown :
      (root : Json N)
      → IsKnown (extract_sing_box_endpoint D root) × IsKnown (extract_xray_endpoint D root)
  unfolding extract_sing_box_endpoint extract_xray_endpoint
  extract_endpoint-IsKnown root =
      let outbounds = elements (get root "outbounds") in
      let final_tag = json_non_empty D (get (get root "route") "final") in
      let fallback =
        first_with_server-IsKnown (endpoint_from_sing_box_outbound D) sing_box_outbound-IsKnown
          outbounds in
      (
        if-IsKnown (is_empty final_tag) _ _ fallback
            (or_endpoint-IsKnown (resolve_final D (tagged D outbounds) final_tag) _ fallback),
        first_with_server-IsKnown (endpoint_from_xray_outbound D) xray_outbound-IsKnown outbounds,
      )
