-- ===== src/Share/Words.antt =====
-- The small readers that the link parsers share: paths, flags, transports and TLS modes.
use entropy_vpn.Base.{
  Bool, ◌||◌, [], ◌∷◌, ◌++◌, Bytes, codes, String, ◌==◌, if◌then◌else◌, is_empty, bytes_eq,
}
use entropy_vpn.Result.{Result, ok, err}
use entropy_vpn.Text.{lower, trim}
use entropy_vpn.Uri.Query.{QueryMap, first_query_value}

-- `value == "..."`
abbrev pub is : Bytes → String → Bool
is value literal = bytes_eq value (codes literal)

rooted : Bytes → Bytes
rooted [] = []
rooted (c ∷ value) = if c == b'/' then c ∷ value else b'/' ∷ c ∷ value

unfoldable pub normalize_path : Bytes → Bytes
unfolding rooted
normalize_path raw = rooted (trim raw)

unfoldable pub to_bool : Bytes → Bool
to_bool raw =
    let value = lower (trim raw) in
    is value "1" || is value "true" || is value "yes" || is value "on"

-- The name of a transport, on the trimmed text in lower case.
unfoldable pub transport_of : Bytes → Result Bytes
transport_of value =
    if is_empty value || is value "tcp" || is value "raw"
    then ok (codes "raw")
    else if is value "ws"
    then ok (codes "ws")
    else if is value "grpc"
    then ok (codes "grpc")
    else if is value "h2" || is value "http"
    then ok (codes "http")
    else if is value "httpupgrade" || is value "http-upgrade"
    then ok (codes "httpUpgrade")
    else if is value "quic"
    then ok (codes "quic")
    else if is value "xhttp" || is value "splithttp" || is value "split-http"
    then ok (codes "xhttp")
    else err (codes "Unsupported transport: " ++ value)

unfoldable pub parse_transport : Bytes → Result Bytes
unfolding transport_of
parse_transport raw = transport_of (lower (trim raw))

unfoldable pub parse_tls_mode : Bytes → Bytes
parse_tls_mode raw =
    let value = lower (trim raw) in
    if is value "tls" || is value "xtls"
    then codes "tls"
    else if is value "reality"
    then codes "reality"
    else codes "none"

unfoldable pub grpc_service_name : Bytes → Bytes
grpc_service_name raw = trim raw

unfoldable pub resolve_service_name : Bytes → QueryMap → Bytes
unfolding grpc_service_name
resolve_service_name transport query =
    if is transport "grpc"
    then grpc_service_name
        (first_query_value query (codes "servicename" ∷ codes "serviceName" ∷ codes "path" ∷ []))
    else []

-- `!a.empty() ? a : b`
abbrev pub or_else : Bytes → Bytes → Bytes
or_else a b = if is_empty a then b else a
