-- ===== src/Uri/RoundTrip.antt =====
-- Reading back a printed link.
use entropy_vpn.Base.{
  ℕ, ◌≤◌, Bool, true, false, [], ◌∷◌, ◌++◌, some, Bytes, AreBytes, All-append, Lacks, codes, ◌==◌,
  ◌≡◌, ◌≢◌, ◌⊎◌, inl, inr, Bool-cases, refl, sym, ◌∙◌, ap, arith, pos, int_max,
}
use entropy_vpn.Number.RoundTrip.{parse_int-write_int, write_int-Lacks}
use entropy_vpn.Number.{write_int}
use entropy_vpn.Result.{ok}
use entropy_vpn.Text.Search.{cut_seq_hit, cut_first_hit, cut_last_hit, contains-Lacks}
use entropy_vpn.Text.{lower, cut_seq, cut_last}
use entropy_vpn.Uri.Decode.RoundTrip.{
  percent_encode, url_decode-percent_encode, is_encoded, percent_encode-Lacks, percent_encode-cons,
  url_decode_slash,
}
use entropy_vpn.Uri.Authority.{parse_endpoint, with_ports, port_items, port_of}
use entropy_vpn.Uri.Query.RoundTrip.{
  print_query, print_query-Lacks, AreByteEntries, assign_all, parse_query-print_query,
}
use entropy_vpn.Uri.Query.{QueryMap}
use entropy_vpn.Uri.{ParsedUri, parse_rest, parse_link, parse_uri}

-- What a link says; the path goes without its slash.
pub record Link : Type 0 where
  pub scheme : Bytes
  pub user_info : Bytes
  pub in_brackets : Bool
  pub host : Bytes
  pub port : ℕ
  pub path : Bytes
  pub query : QueryMap
  pub fragment : Bytes

print_host : Bool → Bytes → Bytes → Bytes
print_host true host rest = b'[' ∷ (percent_encode host ++ b']' ∷ rest)
print_host false host rest = percent_encode host ++ rest

print_endpoint : Link → Bytes
unfolding print_host
print_endpoint l = print_host l.in_brackets l.host (b':' ∷ write_int (pos l.port))

print_authority : Link → Bytes
print_authority l = percent_encode l.user_info ++ b'@' ∷ print_endpoint l

print_target : Link → Bytes
print_target l = print_authority l ++ b'/' ∷ percent_encode l.path

print_request : Link → Bytes
print_request l = print_target l ++ b'?' ∷ print_query l.query

-- `scheme://user@host:port/path?query#fragment`
unfoldable pub print_uri : Link → Bytes
unfolding print_endpoint print_authority print_target print_request
print_uri l = l.scheme ++ codes "://" ++ (print_request l ++ b'#' ∷ percent_encode l.fragment)

pub record IsLink (l : Link) : Type 0 where
  pub scheme_ne_nil : l.scheme ≢ []
  pub scheme_plain : Lacks b':' l.scheme
  pub user_bytes : AreBytes l.user_info
  pub host_bytes : AreBytes l.host
  pub host_ne_nil : l.host ≢ []
  pub port_le : l.port ≤ int_max
  pub path_bytes : AreBytes l.path
  pub query_bytes : AreByteEntries l.query
  pub fragment_bytes : AreBytes l.fragment

-- The parts, as `parse_uri` returns them.
abbrev pub uri_of : Link → ParsedUri
uri_of l = record {
  scheme = lower l.scheme;
  user_info = l.user_info;
  host = l.host;
  port = pos l.port;
  server_ports = [];
  path = b'/' ∷ l.path;
  query = assign_all [] l.query;
  fragment = l.fragment;
}

print_host-Lacks :
    (b : ℕ) (in_brackets : Bool) (host : Bytes) (n : ℕ)
    → is_encoded b ≡ false
    → (b ≢ b'[') × (b ≢ b']') × (b ≢ b':')
    → AreBytes host
    → Lacks b (print_host in_brackets host (b':' ∷ write_int (pos n)))
unfolding print_host
print_host-Lacks b true host n out ne hh = (
  λ e. ne.0 (sym e),
  All-append _ (percent_encode host) _ (percent_encode-Lacks b host out hh)
      (λ e. ne.1 (sym e), (λ e. ne.2 (sym e), write_int-Lacks n b (ground arith))),
)
print_host-Lacks b false host n out ne hh =
    All-append _ (percent_encode host) _ (percent_encode-Lacks b host out hh)
      (λ e. ne.2 (sym e), write_int-Lacks n b (ground arith))

parse_endpoint_bracketed :
    (host rest : Bytes)
    → AreBytes host
    → host ≢ []
    → parse_endpoint (b'[' ∷ (percent_encode host ++ b']' ∷ b':' ∷ rest))
      ≡ ok (with_ports (percent_encode host) rest)
unfolding parse_endpoint
parse_endpoint_bracketed host rest hh ne =
    let (c, t, e, enc) = percent_encode-cons host ne hh in
    rw (
      cut_first_hit b']' (percent_encode host) (b':' ∷ rest)
          (percent_encode-Lacks b']' host refl hh),
      e,
    )

parse_endpoint_other :
    (c : ℕ) (t p q : Bytes)
    → c ≢ b'['
    → cut_last b':' (c ∷ t) ≡ some (p, q)
    → parse_endpoint (c ∷ t) ≡ ok (with_ports p q)
unfolding parse_endpoint
parse_endpoint_other c t p q ne e = elim (Bool-cases (c == b'[')) [
  | inl open_bracket ↦ absurd (ground arith)
  | inr other ↦ rw (other, e)
]

parse_endpoint_named :
    (host rest : Bytes)
    → AreBytes host
    → host ≢ []
    → Lacks b':' rest
    → parse_endpoint (percent_encode host ++ b':' ∷ rest)
      ≡ ok (with_ports (percent_encode host) rest)
parse_endpoint_named host rest hh ne lacks =
    let (c, t, e, enc) = percent_encode-cons host ne hh in
    let cut = cut_last_hit b':' (percent_encode host) rest lacks in
    ap (λ (s : Bytes). parse_endpoint (s ++ b':' ∷ rest)) e
    ∙ parse_endpoint_other c (t ++ b':' ∷ rest) (percent_encode host) rest (ground arith)
        (ap (λ (s : Bytes). cut_last b':' (s ++ b':' ∷ rest)) (sym e) ∙ cut)

parse_endpoint-print_host :
    (in_brackets : Bool) (host rest : Bytes)
    → AreBytes host
    → host ≢ []
    → Lacks b':' rest
    → parse_endpoint (print_host in_brackets host (b':' ∷ rest))
      ≡ ok (with_ports (percent_encode host) rest)
unfolding print_host
parse_endpoint-print_host true host rest hh ne lacks = parse_endpoint_bracketed host rest hh ne
parse_endpoint-print_host false host rest hh ne lacks = parse_endpoint_named host rest hh ne lacks

module _ (l : Link) (h : IsLink l) where
  -- A byte that is neither encoded text nor a mark of the authority.
  endpoint-Lacks :
      (b : ℕ)
      → is_encoded b ≡ false
      → (b ≢ b'[') × (b ≢ b']') × (b ≢ b':')
      → Lacks b (print_endpoint l)
  unfolding print_endpoint
  endpoint-Lacks b out ne = print_host-Lacks b l.in_brackets l.host l.port out ne h.host_bytes

  authority-Lacks :
      (b : ℕ)
      → is_encoded b ≡ false
      → (b ≢ b'[') × (b ≢ b']') × (b ≢ b':')
      → b ≢ b'@'
      → Lacks b (print_authority l)
  unfolding print_authority
  authority-Lacks b out ne at_sign =
      All-append _ (percent_encode l.user_info) _
        (percent_encode-Lacks b l.user_info out h.user_bytes)
        (λ e. at_sign (sym e), endpoint-Lacks b out ne)

  target-Lacks : (b : ℕ) → is_encoded b ≡ false → (b ≡ b'#') ⊎ (b ≡ b'?') → Lacks b (print_target l)
  unfolding print_target
  target-Lacks b out mark =
      All-append _ (print_authority l) _ (authority-Lacks b out (omega arith) (omega arith))
        (omega arith, percent_encode-Lacks b l.path out h.path_bytes)

  request-Lacks : Lacks b'#' (print_request l)
  unfolding print_request
  request-Lacks =
      All-append _ (print_target l) _ (target-Lacks b'#' refl (inl refl))
        (omega arith, print_query-Lacks b'#' l.query refl (omega arith) (omega arith) h.query_bytes)

  port_items-digits : port_items (write_int (pos l.port)) ≡ []
  unfolding port_items
  port_items-digits = rw (
    contains-Lacks b',' _ (write_int-Lacks l.port b',' refl),
    contains-Lacks b'-' _ (write_int-Lacks l.port b'-' refl),
  )

  with_ports_lem :
      with_ports (percent_encode l.host) (write_int (pos l.port))
      ≡ record { host = l.host; server_ports = []; port = pos l.port }
  unfolding with_ports
  with_ports_lem =
      rw (port_items-digits, url_decode-percent_encode l.host h.host_bytes)
        (unfold port_of in rw (parse_int-write_int (pos l.port) (pos 0) h.port_le))

  parse_endpoint-print_endpoint :
      parse_endpoint (print_endpoint l)
      ≡ ok (record { host = l.host; server_ports = []; port = pos l.port })
  unfolding print_endpoint
  parse_endpoint-print_endpoint =
      parse_endpoint-print_host l.in_brackets l.host (write_int (pos l.port)) h.host_bytes
        h.host_ne_nil (write_int-Lacks l.port b':' refl)
      ∙ ap ok with_ports_lem

  parse_rest-print_request :
      (scheme : Bytes)
      → parse_rest scheme (print_request l ++ b'#' ∷ percent_encode l.fragment)
        ≡ ok (record (uri_of l) { scheme = lower scheme })
  unfolding parse_rest
  parse_rest-print_request scheme =
      rw (cut_first_hit b'#' (print_request l) (percent_encode l.fragment) request-Lacks) (
        unfold print_request in
        rw
          (cut_first_hit b'?' (print_target l) (print_query l.query)
            (target-Lacks b'?' refl (inr refl)))
          (unfold print_target in
            rw
              (cut_first_hit b'/' (print_authority l) (percent_encode l.path)
                (authority-Lacks b'/' refl (omega arith) (omega arith)))
              (unfold print_authority in
                rw (
                  cut_last_hit b'@' (percent_encode l.user_info) (print_endpoint l)
                      (endpoint-Lacks b'@' refl (omega arith)),
                  parse_endpoint-print_endpoint,
                  url_decode-percent_encode l.user_info h.user_bytes,
                  url_decode_slash l.path h.path_bytes,
                  parse_query-print_query l.query h.query_bytes,
                  url_decode-percent_encode l.fragment h.fragment_bytes,
                ))))

parse_link-some :
    (scheme rest : Bytes) → scheme ≢ [] → parse_link (some (scheme, rest)) ≡ parse_rest scheme rest
unfolding parse_link
parse_link-some [] rest ne = absurd (ne refl)
parse_link-some (c ∷ scheme) rest ne = refl

cut_seq-print_uri :
    (l : Link)
    → Lacks b':' l.scheme
    → cut_seq (codes "://") (print_uri l)
      ≡ some (l.scheme, print_request l ++ b'#' ∷ percent_encode l.fragment)
unfolding print_uri
cut_seq-print_uri l h = cut_seq_hit b':' (codes "//") l.scheme _ h

-- A link printed from its parts, each but the scheme and the port percent-encoded, is parsed into
-- these parts, the scheme in lower case and the query entries written in order: for a scheme that
-- is not empty and has no colon, a host that is not empty, parts made of bytes and a port that
-- fits an int; with or without brackets around the host.
pub parse_uri-print_uri : (l : Link) → IsLink l → parse_uri (print_uri l) ≡ ok (uri_of l)
unfolding parse_uri
parse_uri-print_uri l h =
    ap parse_link (cut_seq-print_uri l h.scheme_plain)
    ∙ parse_link-some l.scheme _ h.scheme_ne_nil
    ∙ parse_rest-print_request l h l.scheme
