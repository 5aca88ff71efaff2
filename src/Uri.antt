-- ===== src/Uri.antt =====
-- `parse_uri` of native/share_link_parser.cpp.
pub mod Decode
pub mod Query
pub mod Authority
pub mod RoundTrip
pub mod Ports
use entropy_vpn.Base.{ℕ, Bool, true, false, List, [], ◌∷◌, Option, none, some, Bytes, codes, ℤ, pos}
use entropy_vpn.Result.{Result, ok, err, ◌>>=◌}
use entropy_vpn.Text.{lower, cut_first, cut_last, cut_seq}
use Decode.{url_decode}
use Authority.{Endpoint, parse_endpoint}
use Query.{QueryMap, parse_query}

pub record ParsedUri : Type 0 where
  pub scheme : Bytes
  pub user_info : Bytes
  pub host : Bytes
  pub port : ℤ
  pub server_ports : List Bytes
  pub path : Bytes
  pub query : QueryMap
  pub fragment : Bytes

-- Each step cuts one part off `rest`, and gives what is left with the part.
take_fragment : Bytes → Option (Bytes × Bytes) → Bytes × Bytes
take_fragment rest none = (rest, [])
take_fragment rest (some (before, after)) = (before, url_decode after)

take_query : Bytes → Option (Bytes × Bytes) → Bytes × QueryMap
take_query rest none = (rest, [])
take_query rest (some (before, after)) = (before, parse_query after)

-- The path keeps its slash.
take_path : Bytes → Option (Bytes × Bytes) → Bytes × Bytes
take_path rest none = (rest, [])
take_path rest (some (before, after)) = (before, url_decode (b'/' ∷ after))

take_user : Bytes → Option (Bytes × Bytes) → Bytes × Bytes
take_user rest none = (rest, [])
take_user rest (some (before, after)) = (after, url_decode before)

abbrev pub unsupported_format : Bytes
unsupported_format = codes "Unsupported link format."

-- The parts put together, once the endpoint is parsed.
assemble : Bytes → Bytes → Bytes → QueryMap → Bytes → Endpoint → ParsedUri
assemble scheme user_info path query fragment endpoint = record {
  scheme = lower scheme;
  user_info = user_info;
  host = endpoint.host;
  port = endpoint.port;
  server_ports = endpoint.server_ports;
  path = path;
  query = query;
  fragment = fragment;
}

-- What follows the scheme.
parse_rest : Bytes → Bytes → Result ParsedUri
unfolding take_fragment take_query take_path take_user assemble
parse_rest scheme link =
    let fragment = take_fragment link (cut_first b'#' link) in
    let query = take_query fragment.0 (cut_first b'?' fragment.0) in
    let path = take_path query.0 (cut_first b'/' query.0) in
    let user = take_user path.0 (cut_last b'@' path.0) in
    do
      endpoint ← parse_endpoint user.0
      ok (assemble scheme user.1 path.1 query.1 fragment.1 endpoint)

parse_link : Option (Bytes × Bytes) → Result ParsedUri
unfolding parse_rest
parse_link none = err unsupported_format
parse_link (some ([], rest)) = err unsupported_format
parse_link (some (c ∷ scheme, rest)) = parse_rest (c ∷ scheme) rest

unfoldable pub parse_uri : Bytes → Result ParsedUri
unfolding parse_link
parse_uri link = parse_link (cut_seq (codes "://") link)
