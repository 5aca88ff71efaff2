-- ===== src/Share/Hysteria.antt =====
-- `parse_hysteria` of native/share_link_parser.cpp, for both versions.
use entropy_vpn.Base.{
  Bool, true, false, not, ◌&&◌, ◌||◌, [], ◌∷◌, Bytes, codes, String, if◌then◌else◌, is_empty, ℤ,
  pos, is_zero, is_positive,
}
use entropy_vpn.Number.{parse_int}
use entropy_vpn.Profile.{Profile, new_profile}
use entropy_vpn.Result.{Result, ok, ◌>>=◌, ◌>>◌, throw_if}
use entropy_vpn.Share.Words.{is, to_bool}
use entropy_vpn.Text.{split_list}
use entropy_vpn.Uri.Query.{query_value, first_query_value}
use entropy_vpn.Uri.{ParsedUri, parse_uri}

-- Version 2 has a default port.
unfoldable pub default_port : Bool → ℤ → ℤ
default_port version2 port = if version2 && is_zero port then pos 443 else port

-- Any network but these two is dropped.
unfoldable pub known_network : Bytes → Bytes
known_network network = if is network "tcp" || is network "udp" then network else []

-- The profile without its password.
unfoldable pub hysteria_profile : Bool → ParsedUri → Profile
unfolding known_network default_port
hysteria_profile version2 uri =
    let value = λ (key : String). query_value uri.query (codes key) in
    record new_profile {
      protocol = if version2 then codes "hysteria2" else codes "hysteria";
      server = uri.host;
      port = default_port version2 uri.port;
      server_ports = uri.server_ports;
      transport = codes "quic";
      tls_mode = codes "tls";
      remark = uri.fragment;
      sni =
          first_query_value uri.query
            (if version2 then codes "sni" ∷ [] else codes "peer" ∷ codes "sni" ∷ []);
      alpn = split_list (value "alpn") b',';
      allow_insecure = to_bool (value "insecure");
      upload_mbps = parse_int (value "upmbps") (pos 0);
      download_mbps = parse_int (value "downmbps") (pos 0);
      hysteria_network = known_network (
          first_query_value uri.query
            ((if version2 then codes "network" else codes "protocol") ∷ []));
      obfs = value "obfs";
      obfs_password = first_query_value uri.query (
          codes "obfs-password"
          ∷ codes "obfsPassword"
          ∷ codes "obfs-param"
          ∷ codes "obfsParam"
          ∷ []);
    }

-- Version 1 needs both bandwidths.
unfoldable pub with_secret : Bool → ParsedUri → Profile → Result Profile
with_secret true uri profile = ok (record profile { password = uri.user_info })
with_secret false uri profile = do
  throw_if (not (is_positive profile.upload_mbps) || not (is_positive profile.download_mbps))
      (codes "Field upmbps must be a positive integer.")
  ok (record profile { password = query_value uri.query (codes "auth") })

unfoldable pub parse_hysteria : Bytes → Bool → Result Profile
unfolding default_port
parse_hysteria link version2 = do
  uri ← parse_uri link
  throw_if (is_empty uri.host || not (is_positive (default_port version2 uri.port))) (
      if version2
      then codes "Hysteria2 link is incomplete."
      else codes "Hysteria link is incomplete.")
  with_secret version2 uri (hysteria_profile version2 uri)
