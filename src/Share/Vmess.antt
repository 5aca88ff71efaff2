-- ===== src/Share/Vmess.antt =====
-- `parse_vmess` of native/share_link_parser.cpp: Base64 of a JSON object.
use entropy_vpn.Base.{[], Bytes, codes, String, if◌then◌else◌, is_empty, pos, drop, length}
use entropy_vpn.Base64.{base64_decode}
use entropy_vpn.Json.Fields.{json_string_value}
use entropy_vpn.Number.{parse_int}
use entropy_vpn.Profile.{Profile, new_profile, or_default}
use entropy_vpn.Result.{Result, ok, ◌>>=◌, ◌>>◌, throw_if}
use entropy_vpn.Share.Words.{
  is, or_else, normalize_path, to_bool, parse_transport, grpc_service_name,
}
use entropy_vpn.Text.{lower, trim, split_list}

unfoldable pub vmess_tls : Bytes → Bytes
vmess_tls tls =
    if is tls "tls" then codes "tls" else if is tls "reality" then codes "reality" else codes "none"

-- The profile, once the transport is known.
unfoldable pub vmess_profile : Bytes → Bytes → Profile
vmess_profile decoded transport =
    let value = λ (key : String). json_string_value decoded (codes key) in
    record new_profile {
      protocol = codes "vmess";
      server = value "add";
      port = parse_int (value "port") (pos 0);
      user_id = value "id";
      transport = transport;
      tls_mode = vmess_tls (lower (or_else (value "tls") (value "security")));
      remark = value "ps";
      security = or_default (or_else (value "scy") (value "security")) (codes "auto");
      alter_id = parse_int (value "aid") (pos 0);
      sni = value "sni";
      alpn = split_list (value "alpn") b',';
      host = value "host";
      path = normalize_path (value "path");
      service_name =
          if is transport "grpc"
          then grpc_service_name (or_else (value "serviceName") (value "path"))
          else [];
      authority = or_else (value "authority") (value "host");
      fingerprint = value "fp";
      allow_insecure = to_bool (or_else (value "allowInsecure") (value "insecure"));
    }

unfoldable pub parse_vmess : Bytes → Result Profile
parse_vmess link = do
  decoded ← base64_decode (trim (drop (length (codes "vmess://")) link))
  throw_if (is_empty (json_string_value decoded (codes "add"))) (codes "Missing field: add")
  throw_if (is_empty (json_string_value decoded (codes "port")))
      (codes "Field port must be an integer.")
  throw_if (is_empty (json_string_value decoded (codes "id"))) (codes "Missing field: id")
  transport ←
      parse_transport (
        or_else (json_string_value decoded (codes "net"))
          (json_string_value decoded (codes "type")))
  ok (vmess_profile decoded transport)
