-- ===== src/Endpoint/Xray.antt =====
-- `xray_transport`, `xray_tls_mode`, `xray_transport_settings`, `fill_xray_stream`,
-- `endpoint_from_xray_outbound` and `extract_xray_endpoint`.
use entropy_vpn.Base.{
  Bool, true, false, ◌||◌, List, [], ◌∷◌, Option, none, some, Bytes, codes, String, if◌then◌else◌,
  is_empty,
}
use entropy_vpn.Endpoint.Read.{
  json_non_empty, json_string_list, first_json_object, json_first_string, or_text, or_texts,
  transport_host, transport_authority, protocol_for_core_protocol, core_transport,
}
use entropy_vpn.Json.Value.{
  Doubles, Json, is_object, is_array, elements, contains_key, bool_value, int_value,
}
use entropy_vpn.Profile.{Profile, new_profile}
use entropy_vpn.Share.Words.{is}
use entropy_vpn.Text.{lower}
use entropy_vpn.Tun.Fields.{get}

-- The first object whose endpoint has a server.
unfoldable pub first_with_server : {N : Type 0} → (Json N → Profile) → List (Json N) → Profile
first_with_server endpoint [] = new_profile
first_with_server endpoint (v ∷ vs) =
    let later = first_with_server endpoint vs in
    if is_object v then (if is_empty (endpoint v).server then later else endpoint v) else later

module _ {N : Type 0} (D : Doubles N) where
  abbrev pub network : Json N → Bytes
  network stream = lower (json_non_empty D (get stream "network"))

  unfoldable pub xray_transport : Json N → Bytes
  unfolding core_transport
  xray_transport stream = core_transport (network stream)

  unfoldable pub xray_tls_mode : Json N → Bytes
  xray_tls_mode stream =
      let security = lower (json_non_empty D (get stream "security")) in
      if is security "reality"
      then codes "reality"
      else if is security "tls"
      then codes "tls"
      else codes "none"

  -- The new key where it is there, else the old one.
  either_key : String → String → Json N → Json N
  either_key key old_key stream =
      if contains_key stream (codes key) then get stream key else get stream old_key

  unfoldable pub xray_transport_settings : Json N → Json N
  unfolding either_key
  xray_transport_settings stream =
      let n = network stream in
      if is n "ws" || is n "websocket"
      then get stream "wsSettings"
      else if is n "grpc"
      then get stream "grpcSettings"
      else if is n "http"
      then get stream "httpSettings"
      else if is n "xhttp" || is n "splithttp" || is n "split-http"
      then either_key "xhttpSettings" "splithttpSettings" stream
      else if is n "httpupgrade" || is n "http-upgrade"
      then get stream "httpupgradeSettings"
      else if is n "quic"
      then get stream "quicSettings"
      else either_key "rawSettings" "tcpSettings" stream

  unfoldable pub fill_xray_stream : Json N → Profile → Profile
  unfolding xray_transport xray_tls_mode xray_transport_settings
  fill_xray_stream stream p =
      let reality = get stream "realitySettings" in
      let tls = get stream "tlsSettings" in
      let transport = xray_transport_settings stream in
      let grpc = get stream "grpcSettings" in
      let names = "serverName" ∷ "server_name" ∷ [] in
      record p {
        transport = xray_transport stream;
        tls_mode = xray_tls_mode stream;
        sni = or_text (json_first_string D reality names) (json_first_string D tls names);
        alpn =
            or_texts (json_string_list D (get reality "alpn"))
              (json_string_list D (get tls "alpn"));
        fingerprint =
            or_text (json_non_empty D (get reality "fingerprint"))
              (json_non_empty D (get tls "fingerprint"));
        public_key = json_non_empty D (get reality "publicKey");
        short_id = json_non_empty D (get reality "shortId");
        spider_x = json_non_empty D (get reality "spiderX");
        allow_insecure = bool_value (get tls "allowInsecure");
        host = transport_host D transport;
        path = json_non_empty D (get transport "path");
        service_name = json_first_string D grpc ("serviceName" ∷ "service_name" ∷ []);
        authority =
            or_text (json_non_empty D (get grpc "authority")) (transport_authority D transport);
      }

  abbrev pub server_of : Json N → Bytes
  server_of item = json_first_string D item ("address" ∷ "server" ∷ [])

  unfoldable pub with_item_user : Json N → Profile → Profile
  with_item_user user p = record p {
    user_id = json_first_string D user ("id" ∷ "uuid" ∷ []);
    security = json_first_string D user ("security" ∷ "encryption" ∷ []);
    alter_id = int_value D (get user "alterId");
    flow = json_non_empty D (get user "flow");
  }

  unfoldable pub with_first_user : Option (Json N) → Profile → Profile
  unfolding with_item_user
  with_first_user none p = p
  with_first_user (some user) p = with_item_user user p

  unfoldable pub with_item_secret : Json N → Profile → Profile
  with_item_secret item p = record p {
    password = json_non_empty D (get item "password");
    method = json_non_empty D (get item "method");
    security = json_non_empty D (get item "security");
  }

  unfoldable pub at_server : Json N → Bytes → Profile
  at_server item protocol = record new_profile {
    protocol = protocol_for_core_protocol protocol;
    server = server_of item;
    port = int_value D (get item "port");
  }

  -- One item of `vnext` or `servers`, which has a server.
  unfoldable pub nested_endpoint : Bool → Json N → Bytes → Profile
  unfolding with_first_user with_item_secret at_server
  nested_endpoint true item protocol =
      with_first_user (first_json_object (get item "users")) (at_server item protocol)
  nested_endpoint false item protocol = with_item_secret item (at_server item protocol)

  -- The settings themselves, where there is no array.
  unfoldable pub flat_endpoint : Bool → Json N → Bytes → Profile
  unfolding with_item_user with_item_secret at_server
  flat_endpoint true settings protocol = with_item_user settings (at_server settings protocol)
  flat_endpoint false settings protocol = with_item_secret settings (at_server settings protocol)

  -- The first object with a server; `Profile()` if there is none.
  unfoldable pub first_endpoint : Bool → Bytes → Json N → List (Json N) → Profile
  unfolding nested_endpoint
  first_endpoint user protocol stream [] = new_profile
  first_endpoint user protocol stream (item ∷ items) =
      let later = first_endpoint user protocol stream items in
      if is_object item
      then (if is_empty (server_of item)
          then later
          else fill_xray_stream stream (nested_endpoint user item protocol))
      else later

  -- `user` tells VLESS and VMess, whose servers stand in `vnext`, from Trojan and Shadowsocks.
  unfoldable pub settings_endpoint : Bool → String → Bytes → Json N → Json N → Profile
  unfolding first_endpoint flat_endpoint
  settings_endpoint user key protocol settings stream =
      if is_array (get settings key)
      then first_endpoint user protocol stream (elements (get settings key))
      else if is_empty (server_of settings)
      then new_profile
      else fill_xray_stream stream (flat_endpoint user settings protocol)

  unfoldable pub endpoint_from_xray_outbound : Json N → Profile
  unfolding settings_endpoint
  endpoint_from_xray_outbound outbound =
      let protocol = lower (json_non_empty D (get outbound "protocol")) in
      let settings = get outbound "settings" in
      let stream = get outbound "streamSettings" in
      if is protocol "vless" || is protocol "vmess"
      then settings_endpoint true "vnext" protocol settings stream
      else if is protocol "trojan" || is protocol "shadowsocks"
      then settings_endpoint false "servers" protocol settings stream
      else new_profile

  unfoldable pub extract_xray_endpoint : Json N → Profile
  unfolding first_with_server endpoint_from_xray_outbound
  extract_xray_endpoint root =
      first_with_server endpoint_from_xray_outbound (elements (get root "outbounds"))
