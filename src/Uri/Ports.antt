-- ===== src/Uri/Ports.antt =====
-- The port of a parsed link.
use entropy_vpn.Base.{[], ◌∷◌, Option, none, some, Bytes, codes}
use entropy_vpn.Result.{Result, ok, err, ◌>>=◌}
use entropy_vpn.Text.{cut_seq}
use entropy_vpn.Uri.Authority.Ports.{IsPort, HasPort, parse_endpoint-HasPort}
use entropy_vpn.Uri.Authority.{Endpoint, parse_endpoint}
use entropy_vpn.Uri.Query.{QueryMap}
use entropy_vpn.Uri.{ParsedUri, assemble, parse_rest, parse_link, parse_uri}

abbrev pub UriHasPort : Result ParsedUri → Type 0
UriHasPort (ok uri) = IsPort uri.port
UriHasPort (err m) = Unit

assemble-UriHasPort :
    (scheme user path : Bytes) (query : QueryMap) (fragment : Bytes) (r : Result Endpoint)
    → HasPort r
    → UriHasPort (r >>= λ e. ok (assemble scheme user path query fragment e))
unfolding assemble
assemble-UriHasPort scheme user path query fragment (ok e) h = h
assemble-UriHasPort scheme user path query fragment (err m) h = tt

parse_rest-UriHasPort : (scheme link : Bytes) → UriHasPort (parse_rest scheme link)
unfolding parse_rest
parse_rest-UriHasPort scheme link =
    assemble-UriHasPort scheme _ _ _ _ (parse_endpoint _) (parse_endpoint-HasPort _)

parse_link-UriHasPort : (cut : Option (Bytes × Bytes)) → UriHasPort (parse_link cut)
unfolding parse_link
parse_link-UriHasPort none = tt
parse_link-UriHasPort (some ([], rest)) = tt
parse_link-UriHasPort (some (c ∷ scheme, rest)) = parse_rest-UriHasPort (c ∷ scheme) rest

-- Whatever link is given, the port of a parsed link is at least 0 and fits an int.
pub parse_uri-UriHasPort : (link : Bytes) → UriHasPort (parse_uri link)
unfolding parse_uri
parse_uri-UriHasPort link = parse_link-UriHasPort (cut_seq (codes "://") link)
