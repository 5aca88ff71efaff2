-- ===== src/Config/Options.antt =====
-- `ConfigOptions` and `options_from_json` of native/share_link_parser.cpp.
use entropy_vpn.Base.{Bool, false, List, [], Bytes, codes, String}
use entropy_vpn.Json.Fields.{json_string_value, json_bool_value, json_string_array_value}
use entropy_vpn.Profile.{or_default}
use entropy_vpn.Share.Words.{is}

pub record ConfigOptions : Type 0 where
  pub core : Bytes
  pub traffic_mode : Bytes
  pub tun_ip_mode : Bytes
  pub is_android : Bool
  pub is_windows : Bool
  pub dns_mode : Bytes
  pub dns_servers : List Bytes
  pub split_tunnel_mode : Bytes
  pub split_tunnel_app_names : List Bytes
  pub split_tunnel_app_paths : List Bytes
  pub domain_split_tunnel_mode : Bytes
  pub domain_split_tunnel_domains : List Bytes
  pub tun_interface_name : Bytes
  pub outbound_bind_interface : Bytes
  pub route_default_interface : Bytes
  pub xray_server_address_override : Bytes
  pub socks_username : Bytes
  pub socks_password : Bytes

-- The initializers of the fields.
abbrev pub new_options : ConfigOptions
new_options = record {
  core = [];
  traffic_mode = codes "systemProxy";
  tun_ip_mode = codes "ipv4";
  is_android = false;
  is_windows = false;
  dns_mode = codes "classic";
  dns_servers = [];
  split_tunnel_mode = codes "off";
  split_tunnel_app_names = [];
  split_tunnel_app_paths = [];
  domain_split_tunnel_mode = codes "off";
  domain_split_tunnel_domains = [];
  tun_interface_name = [];
  outbound_bind_interface = [];
  route_default_interface = [];
  xray_server_address_override = [];
  socks_username = [];
  socks_password = [];
}

unfoldable pub options_from_json : Bytes → ConfigOptions
options_from_json json =
    let value = λ (key : String). json_string_value json (codes key) in
    let items = λ (key : String). json_string_array_value json (codes key) in
    record {
      core = value "core";
      traffic_mode = or_default (value "trafficMode") (codes "systemProxy");
      tun_ip_mode = or_default (value "tunIpMode") (codes "ipv4");
      is_android = json_bool_value json (codes "isAndroid");
      is_windows = json_bool_value json (codes "isWindows");
      dns_mode = or_default (value "dnsMode") (codes "classic");
      dns_servers = items "dnsServers";
      split_tunnel_mode = or_default (value "splitTunnelMode") (codes "off");
      split_tunnel_app_names = items "splitTunnelAppNames";
      split_tunnel_app_paths = items "splitTunnelAppPaths";
      domain_split_tunnel_mode = or_default (value "domainSplitTunnelMode") (codes "off");
      domain_split_tunnel_domains = items "domainSplitTunnelDomains";
      tun_interface_name = value "tunInterfaceName";
      outbound_bind_interface = value "outboundBindInterface";
      route_default_interface = value "routeDefaultInterface";
      xray_server_address_override = value "xrayServerAddressOverride";
      socks_username = value "socksUsername";
      socks_password = value "socksPassword";
    }

unfoldable pub is_tun : ConfigOptions → Bool
is_tun options = is options.traffic_mode "tun"
