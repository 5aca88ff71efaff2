-- ===== src/Share/Vless.antt =====
-- `parse_vless_or_trojan` of native/share_link_parser.cpp.
use entropy_vpn.Base.{
  Bool, true, false, ◌&&◌, ◌||◌, [], ◌∷◌, Bytes, codes, String, if◌then◌else◌, is_empty, is_zero,
}
use entropy_vpn.Profile.{Profile, new_profile, or_default}
use entropy_vpn.Result.{Result, ok, ◌>>=◌, ◌>>◌, throw_if}
use entropy_vpn.Share.Words.{
  normalize_path, to_bool, parse_transport, parse_tls_mode, resolve_service_name,
}
use entropy_vpn.Text.{split_list}
use entropy_vpn.Uri.Query.{query_value, first_query_value}
use entropy_vpn.Uri.{ParsedUri, parse_uri}

-- `first_query_value(uri.query, {"security"}).empty() && trojan ? "tls" : ...`
unfoldable pub tls_text : Bool → Bytes → Bytes
tls_text trojan security = if is_empty security && trojan then codes "tls" else security

-- Where the credentials go.
unfoldable pub with_user : Bool → ParsedUri → Profile → Profile
with_user true uri profile = record profile { password = uri.user_info }
with_user false uri profile = record profile {
  user_id = uri.user_info;
  security = or_default (first_query_value uri.query (codes "encryption" ∷ [])) (codes "none");
  flow = query_value uri.query (codes "flow");
}

-- The profile, once the transport is known.
unfoldable pub vless_profile : Bool → ParsedUri → Bytes → Profile
unfolding with_user
vless_profile trojan uri transport =
    let value = λ (key : String). query_value uri.query (codes key) in
    with_user trojan uri (record new_profile {
      protocol = if trojan then codes "trojan" else codes "vless";
      server = uri.host;
      port = uri.port;
      transport = transport;
      tls_mode =
          parse_tls_mode (tls_text trojan (first_query_value uri.query (codes "security" ∷ [])));
      remark = uri.fragment;
      sni = first_query_value uri.query (codes "sni" ∷ codes "servername" ∷ []);
      alpn = split_list (value "alpn") b',';
      host = value "host";
      path = normalize_path (value "path");
      service_name = resolve_service_name transport uri.query;
      authority = first_query_value uri.query (codes "authority" ∷ codes "host" ∷ []);
      fingerprint = value "fp";
      public_key = value "pbk";
      short_id = value "sid";
      spider_x = value "spx";
      allow_insecure =
          to_bool (first_query_value uri.query (codes "allowinsecure" ∷ codes "insecure" ∷ []));
    })

unfoldable pub parse_vless_or_trojan : Bytes → Bool → Result Profile
parse_vless_or_trojan link trojan = do
  uri ← parse_uri link
  throw_if (is_empty uri.host || is_zero uri.port || is_empty uri.user_info)
      (if trojan then codes "Trojan link is incomplete." else codes "VLESS link is incomplete.")
  transport ← parse_transport (first_query_value uri.query (codes "type" ∷ codes "net" ∷ []))
  ok (vless_profile trojan uri transport)
