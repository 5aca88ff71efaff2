-- ===== src/Share/Shadowsocks.antt =====
-- `parse_shadowsocks` of native/share_link_parser.cpp.
use entropy_vpn.Base.{
  ◌||◌, List, [], ◌∷◌, ◌++◌, Option, none, some, Bytes, codes, if◌then◌else◌, is_empty, is_zero,
  drop, length,
}
use entropy_vpn.Base64.{base64_decode}
use entropy_vpn.Profile.{Profile, new_profile}
use entropy_vpn.Result.{Result, ok, err, ◌>>=◌, ◌>>◌, throw_if}
use entropy_vpn.Text.{cut_first, cut_last, contains, split_list}
use entropy_vpn.Uri.Decode.{url_decode}
use entropy_vpn.Uri.Query.{QueryMap, parse_query, query_value}
use entropy_vpn.Uri.{parse_uri}

abbrev pub incomplete : Bytes
incomplete = codes "Shadowsocks link is incomplete."

-- The link without its remark, and the remark.
split_remark : Bytes → Option (Bytes × Bytes) → Bytes × Bytes
split_remark rest none = (rest, [])
split_remark rest (some (before, after)) = (before, url_decode after)

-- `main_part` and `query`.
split_query : Bytes → Option (Bytes × Bytes) → Bytes × QueryMap
split_query rest none = (rest, [])
split_query rest (some (before, after)) = (before, parse_query after)

-- The credentials in front of the `@`, in Base64 where they hold no colon.
plain_credentials : Bytes × Bytes → Result (Bytes × Bytes)
plain_credentials (credentials, server_part) =
    if contains b':' credentials
    then ok (credentials, server_part)
    else do decoded ← base64_decode credentials; ok (decoded, server_part)

split_decoded : Option (Bytes × Bytes) → Result (Bytes × Bytes)
split_decoded none = err incomplete
split_decoded (some parts) = ok parts

-- `credentials` and `server_part`; where the text has no `@`, all of it is Base64.
unfoldable pub split_main : Bytes → Option (Bytes × Bytes) → Result (Bytes × Bytes)
unfolding plain_credentials split_decoded
split_main main_part (some parts) = plain_credentials parts
split_main main_part none = do
  decoded ← base64_decode main_part
  split_decoded (cut_last b'@' decoded)

-- The method and the password.
unfoldable pub split_credentials : Option (Bytes × Bytes) → Result (Bytes × Bytes)
split_credentials none = err (codes "Shadowsocks credentials are invalid.")
split_credentials (some ([], password)) = err (codes "Shadowsocks credentials are invalid.")
split_credentials (some (c ∷ method, password)) = ok (c ∷ method, password)

-- The parts behind the first, joined by `;`.
unfoldable pub join_opts : List Bytes → Bytes
join_opts [] = []
join_opts (part ∷ []) = part
join_opts (part ∷ next ∷ parts) = part ++ b';' ∷ join_opts (next ∷ parts)

unfoldable pub with_plugin : List Bytes → Profile → Profile
unfolding join_opts
with_plugin [] profile = profile
with_plugin (name ∷ opts) profile = record profile { plugin = name; plugin_opts = join_opts opts }

unfoldable pub parse_shadowsocks : Bytes → Result Profile
unfolding split_remark split_query with_plugin
parse_shadowsocks link =
    let rest = drop (length (codes "ss://")) link in
    let remark = split_remark rest (cut_first b'#' rest) in
    let main_part = split_query remark.0 (cut_first b'?' remark.0) in
    do
      parts ← split_main main_part.0 (cut_last b'@' main_part.0)
      secrets ← split_credentials (cut_first b':' parts.0)
      endpoint ← parse_uri (codes "ss://placeholder@" ++ parts.1)
      throw_if (is_empty endpoint.host || is_zero endpoint.port) incomplete
      ok (
          with_plugin (split_list (query_value main_part.1 (codes "plugin")) b';')
            (record new_profile {
              protocol = codes "shadowsocks";
              server = endpoint.host;
              port = endpoint.port;
              method = secrets.0;
              password = secrets.1;
              remark = remark.1;
            }))
