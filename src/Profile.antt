-- ===== src/Profile.antt =====
-- `Profile` of native/share_link_parser.cpp, `to_json` and `profile_from_json`.
pub mod RoundTrip
pub mod Checked
use entropy_vpn.Base.{
  ℕ, Bool, true, false, List, [], ◌∷◌, Bytes, String, codes, if◌then◌else◌, is_empty, ℤ, pos,
}
use entropy_vpn.Json.Fields.{json_string_value, json_bool_value, json_string_array_value}
use entropy_vpn.Json.Rows.{Field, string_field, int_field, bool_field, array_field, write_object}
use entropy_vpn.Number.{parse_int}

pub record Profile : Type 0 where
  pub protocol : Bytes
  pub server : Bytes
  pub port : ℤ
  pub transport : Bytes
  pub tls_mode : Bytes
  pub remark : Bytes
  pub user_id : Bytes
  pub password : Bytes
  pub method : Bytes
  pub security : Bytes
  pub alter_id : ℤ
  pub flow : Bytes
  pub sni : Bytes
  pub alpn : List Bytes
  pub host : Bytes
  pub path : Bytes
  pub service_name : Bytes
  pub authority : Bytes
  pub fingerprint : Bytes
  pub public_key : Bytes
  pub short_id : Bytes
  pub spider_x : Bytes
  pub allow_insecure : Bool
  pub plugin : Bytes
  pub plugin_opts : Bytes
  pub server_ports : List Bytes
  pub upload_mbps : ℤ
  pub download_mbps : ℤ
  pub hysteria_network : Bytes
  pub obfs : Bytes
  pub obfs_password : Bytes
  pub sing_box_config_json : Bytes
  pub xray_config_json : Bytes

-- `Profile profile;`
abbrev pub new_profile : Profile
new_profile = record {
  protocol = [];
  server = [];
  port = pos 0;
  transport = codes "raw";
  tls_mode = codes "none";
  remark = [];
  user_id = [];
  password = [];
  method = [];
  security = [];
  alter_id = pos 0;
  flow = [];
  sni = [];
  alpn = [];
  host = [];
  path = [];
  service_name = [];
  authority = [];
  fingerprint = [];
  public_key = [];
  short_id = [];
  spider_x = [];
  allow_insecure = false;
  plugin = [];
  plugin_opts = [];
  server_ports = [];
  upload_mbps = pos 0;
  download_mbps = pos 0;
  hysteria_network = [];
  obfs = [];
  obfs_password = [];
  sing_box_config_json = [];
  xray_config_json = [];
}

-- The calls of `add_string` and its kin in `to_json`, in order.
abbrev pub profile_fields : Profile → List (Bytes × Field)
profile_fields p =
    (codes "protocol", string_field p.protocol)
    ∷ (codes "server", string_field p.server)
    ∷ (codes "port", int_field p.port false)
    ∷ (codes "transport", string_field p.transport)
    ∷ (codes "tlsMode", string_field p.tls_mode)
    ∷ (codes "remark", string_field p.remark)
    ∷ (codes "userId", string_field p.user_id)
    ∷ (codes "password", string_field p.password)
    ∷ (codes "method", string_field p.method)
    ∷ (codes "security", string_field p.security)
    ∷ (codes "alterId", int_field p.alter_id true)
    ∷ (codes "flow", string_field p.flow)
    ∷ (codes "sni", string_field p.sni)
    ∷ (codes "alpn", array_field p.alpn)
    ∷ (codes "host", string_field p.host)
    ∷ (codes "path", string_field p.path)
    ∷ (codes "serviceName", string_field p.service_name)
    ∷ (codes "authority", string_field p.authority)
    ∷ (codes "fingerprint", string_field p.fingerprint)
    ∷ (codes "publicKey", string_field p.public_key)
    ∷ (codes "shortId", string_field p.short_id)
    ∷ (codes "spiderX", string_field p.spider_x)
    ∷ (codes "allowInsecure", bool_field p.allow_insecure)
    ∷ (codes "plugin", string_field p.plugin)
    ∷ (codes "pluginOpts", string_field p.plugin_opts)
    ∷ (codes "serverPorts", array_field p.server_ports)
    ∷ (codes "uploadMbps", int_field p.upload_mbps true)
    ∷ (codes "downloadMbps", int_field p.download_mbps true)
    ∷ (codes "hysteriaNetwork", string_field p.hysteria_network)
    ∷ (codes "obfs", string_field p.obfs)
    ∷ (codes "obfsPassword", string_field p.obfs_password)
    ∷ []

unfoldable pub to_json : Profile → Bytes
to_json p = write_object (profile_fields p)

-- `if (value.empty()) value = fallback;`
abbrev pub or_default : Bytes → Bytes → Bytes
or_default value fallback = if is_empty value then fallback else value

unfoldable pub profile_from_json : Bytes → Profile
profile_from_json json =
    let text = λ (key : String). json_string_value json (codes key) in
    let number = λ (key : String). parse_int (text key) (pos 0) in
    let texts = λ (key : String). json_string_array_value json (codes key) in
    record {
      protocol = text "protocol";
      server = text "server";
      port = number "port";
      transport = or_default (text "transport") (codes "raw");
      tls_mode = or_default (text "tlsMode") (codes "none");
      remark = text "remark";
      user_id = text "userId";
      password = text "password";
      method = text "method";
      security = text "security";
      alter_id = number "alterId";
      flow = text "flow";
      sni = text "sni";
      alpn = texts "alpn";
      host = text "host";
      path = text "path";
      service_name = text "serviceName";
      authority = text "authority";
      fingerprint = text "fingerprint";
      public_key = text "publicKey";
      short_id = text "shortId";
      spider_x = text "spiderX";
      allow_insecure = json_bool_value json (codes "allowInsecure");
      plugin = text "plugin";
      plugin_opts = text "pluginOpts";
      server_ports = texts "serverPorts";
      upload_mbps = number "uploadMbps";
      download_mbps = number "downloadMbps";
      hysteria_network = text "hysteriaNetwork";
      obfs = text "obfs";
      obfs_password = text "obfsPassword";
      sing_box_config_json = text "singBoxConfigJson";
      xray_config_json = text "xrayConfigJson";
    }
