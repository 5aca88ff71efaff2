-- ===== src/Endpoint/SingBox.antt =====
-- `sing_box_transport`, `sing_box_tls_mode` and `endpoint_from_sing_box_outbound`.
use entropy_vpn.Base.{
  Bool, ◌||◌, ◌&&◌, not, List, [], ◌∷◌, Bytes, codes, if◌then◌else◌, is_empty, is_zero, ℤ,
}
use entropy_vpn.Endpoint.Read.{
  json_non_empty, json_string_list, json_first_string, transport_host, transport_authority,
  protocol_for_core_protocol, core_transport,
}
use entropy_vpn.Json.Value.{Doubles, Json, is_object, bool_value, int_value}
use entropy_vpn.Profile.{Profile, new_profile}
use entropy_vpn.Share.Words.{is}
use entropy_vpn.Text.{lower}
use entropy_vpn.Tun.Fields.{get}
use entropy_vpn.Uri.Authority.{first_server_port}

module _ {N : Type 0} (D : Doubles N) where
  unfoldable pub sing_box_transport : Json N → Bytes
  unfolding core_transport
  sing_box_transport transport = core_transport (lower (json_non_empty D (get transport "type")))

  unfoldable pub sing_box_tls_mode : Json N → Bytes
  sing_box_tls_mode tls =
      if bool_value (get tls "enabled")
      then (if bool_value (get (get tls "reality") "enabled") then codes "reality" else codes "tls")
      else codes "none"

  -- The port, or the first of the ports where it is zero.
  port_or_first : ℤ → List Bytes → ℤ
  port_or_first port ports =
      if is_zero port && not (is_empty ports) then first_server_port ports else port

  unfoldable pub with_obfs : Json N → Profile → Profile
  with_obfs obfs p =
      if is_object obfs
      then record p {
        obfs = json_non_empty D (get obfs "type");
        obfs_password = json_non_empty D (get obfs "password");
      }
      else record p { obfs_password = json_non_empty D obfs }

  unfoldable pub fill_sing_box : Bytes → Json N → Profile
  unfolding sing_box_transport sing_box_tls_mode port_or_first with_obfs
  fill_sing_box type outbound =
      let tls = get outbound "tls" in
      let reality = get tls "reality" in
      let transport = get outbound "transport" in
      let ports = json_string_list D (get outbound "server_ports") in
      with_obfs (get outbound "obfs") (record new_profile {
        protocol = protocol_for_core_protocol type;
        server = json_non_empty D (get outbound "server");
        port = port_or_first (int_value D (get outbound "server_port")) ports;
        server_ports = ports;
        user_id = json_non_empty D (get outbound "uuid");
        password = json_non_empty D (get outbound "password");
        method = json_non_empty D (get outbound "method");
        security = json_non_empty D (get outbound "security");
        flow = json_non_empty D (get outbound "flow");
        transport = sing_box_transport transport;
        tls_mode = sing_box_tls_mode tls;
        sni = json_non_empty D (get tls "server_name");
        alpn = json_string_list D (get tls "alpn");
        host = transport_host D transport;
        path = json_non_empty D (get transport "path");
        service_name = json_first_string D transport ("service_name" ∷ "serviceName" ∷ []);
        authority = transport_authority D transport;
        fingerprint = json_non_empty D (get (get tls "utls") "fingerprint");
        public_key = json_non_empty D (get reality "public_key");
        short_id = json_non_empty D (get reality "short_id");
        allow_insecure = bool_value (get tls "insecure");
        upload_mbps = int_value D (get outbound "up_mbps");
        download_mbps = int_value D (get outbound "down_mbps");
        hysteria_network = json_non_empty D (get outbound "network");
      })

  -- Not a server: the outbounds that the program itself or another outbound stands for.
  abbrev is_local_type : Bytes → Bool
  is_local_type type =
      is_empty type
      || is type "block"
      || is type "direct"
      || is type "dns"
      || is type "selector"
      || is type "urltest"

  unfoldable pub endpoint_from_sing_box_outbound : Json N → Profile
  unfolding fill_sing_box
  endpoint_from_sing_box_outbound outbound =
      let type = lower (json_non_empty D (get outbound "type")) in
      if is_local_type type || is_empty (json_non_empty D (get outbound "server"))
      then new_profile
      else fill_sing_box type outbound
