-- ===== src/Uri/Query/RoundTrip.antt =====
-- The query as a map, and reading back a printed query.
use entropy_vpn.Base.{
  ℕ, false, List, [], ◌∷◌, ◌++◌, some, Bytes, AreBytes, All, All-map, All-append, Lacks, ◌==◌,
  if◌then◌else◌, is_empty, ◌≡◌, ◌≢◌, refl, sym, ◌∙◌, ap, arith, bytes_eq, bytes_eq_iff,
}
use entropy_vpn.Text.Search.{cut_first_hit}
use entropy_vpn.Text.Split.{pieces_last, pieces_first}
use entropy_vpn.Text.{pieces}
use entropy_vpn.Uri.Decode.RoundTrip.{
  percent_encode, url_decode-percent_encode, IsEncoded, is_encoded, percent_encode-Lacks,
  percent_encode-IsEncoded,
}
use entropy_vpn.Uri.Query.{QueryMap, find_key, assign, add_part, add_parts, parse_query}

-- A write is seen at its key, and nowhere else.
pub find_key-assign :
    (query : QueryMap) (key value other : Bytes)
    → find_key (assign query key value) other
      ≡ (if bytes_eq key other then some value else find_key query other)
unfolding find_key assign
find_key-assign [] key value other = refl
find_key-assign ((k, v) ∷ query) key value other = ground (
  arith,
  bytes_eq_iff k key,
  bytes_eq_iff k other,
  bytes_eq_iff key other,
  find_key-assign query key value other,
)

print_entry : Bytes × Bytes → Bytes
print_entry (k, v) = percent_encode k ++ b'=' ∷ percent_encode v

-- The form of a query: `key=value`, joined by `&`, all percent-encoded.
unfoldable pub print_query : QueryMap → Bytes
unfolding print_entry
print_query [] = []
print_query (e ∷ []) = print_entry e
print_query (e ∷ f ∷ es) = print_entry e ++ b'&' ∷ print_query (f ∷ es)

-- Writing the entries in order.
unfoldable pub assign_all : QueryMap → QueryMap → QueryMap
assign_all query [] = query
assign_all query ((k, v) ∷ es) = assign_all (assign query k v) es

abbrev pub AreByteEntries : QueryMap → Type 0
AreByteEntries = All (λ (e : Bytes × Bytes). AreBytes e.0 × AreBytes e.1)

is_empty_middle : (s : Bytes) (c : ℕ) (t : Bytes) → is_empty (s ++ c ∷ t) ≡ false
is_empty_middle [] c t = refl
is_empty_middle (d ∷ s) c t = refl

add_part-print_entry :
    (query : QueryMap) (k v : Bytes)
    → AreBytes k
    → AreBytes v
    → add_part query (print_entry (k, v)) ≡ assign query k v
unfolding add_part print_entry
add_part-print_entry query k v hk hv = rw (
  is_empty_middle (percent_encode k) b'=' (percent_encode v),
  cut_first_hit b'=' (percent_encode k) (percent_encode v)
      (All-map (λ c (h : IsEncoded c). ground arith) _ (percent_encode-IsEncoded k hk)),
  url_decode-percent_encode k hk,
  url_decode-percent_encode v hv,
)

encoded-not_amp : (s : Bytes) → AreBytes s → All (λ c. (c == b'&') ≡ false) (percent_encode s)
encoded-not_amp s h = All-map (λ c (e : IsEncoded c). ground arith) _ (percent_encode-IsEncoded s h)

print_entry-not_amp :
    (k v : Bytes) → AreBytes k → AreBytes v → All (λ c. (c == b'&') ≡ false) (print_entry (k, v))
unfolding print_entry
print_entry-not_amp k v hk hv =
    All-append _ (percent_encode k) (b'=' ∷ percent_encode v) (encoded-not_amp k hk)
      (refl, encoded-not_amp v hv)

add_parts-cons :
    (query : QueryMap) (k v : Bytes) (parts : List Bytes)
    → AreBytes k
    → AreBytes v
    → add_parts query (print_entry (k, v) ∷ parts) ≡ add_parts (assign query k v) parts
unfolding add_parts
add_parts-cons query k v parts hk hv =
    ap (λ q. add_parts q parts) (add_part-print_entry query k v hk hv)

add_parts-print_query :
    (query es : QueryMap)
    → AreByteEntries es
    → add_parts query (pieces (λ c. c == b'&') (print_query es)) ≡ assign_all query es
unfolding print_query assign_all
add_parts-print_query query [] h = unfold pieces add_parts in refl
add_parts-print_query query ((k, v) ∷ []) h =
    ap (add_parts query) (pieces_last _ (print_entry (k, v)) (print_entry-not_amp k v h.0.0 h.0.1))
    ∙ add_parts-cons query k v [] h.0.0 h.0.1
    ∙ unfold add_parts in refl
add_parts-print_query query ((k, v) ∷ f ∷ es) h =
    ap (add_parts query) (
      pieces_first (λ c. c == b'&') (print_entry (k, v)) b'&' (print_query (f ∷ es))
        (print_entry-not_amp k v h.0.0 h.0.1) refl)
    ∙ add_parts-cons query k v _ h.0.0 h.0.1
    ∙ add_parts-print_query (assign query k v) (f ∷ es) h.1

print_entry-Lacks :
    (b : ℕ) (k v : Bytes)
    → is_encoded b ≡ false
    → b ≢ b'='
    → AreBytes k
    → AreBytes v
    → Lacks b (print_entry (k, v))
unfolding print_entry
print_entry-Lacks b k v out h hk hv =
    All-append _ (percent_encode k) (b'=' ∷ percent_encode v) (percent_encode-Lacks b k out hk)
      (λ e. h (sym e), percent_encode-Lacks b v out hv)

-- Parsing the percent-encoded text of a list of byte entries writes these entries into the empty
-- map in order, so that a later value of a key replaces an earlier one.
pub parse_query-print_query :
    (es : QueryMap) → AreByteEntries es → parse_query (print_query es) ≡ assign_all [] es
unfolding parse_query
parse_query-print_query es h = add_parts-print_query [] es h

pub print_query-Lacks :
    (b : ℕ) (es : QueryMap)
    → is_encoded b ≡ false
    → b ≢ b'='
    → b ≢ b'&'
    → AreByteEntries es
    → Lacks b (print_query es)
unfolding print_query
print_query-Lacks b [] out h h' hs = tt
print_query-Lacks b ((k, v) ∷ []) out h h' hs = print_entry-Lacks b k v out h hs.0.0 hs.0.1
print_query-Lacks b ((k, v) ∷ f ∷ es) out h h' hs =
    All-append _ (print_entry (k, v)) (b'&' ∷ print_query (f ∷ es))
      (print_entry-Lacks b k v out h hs.0.0 hs.0.1)
      (λ e. h' (sym e), print_query-Lacks b (f ∷ es) out h h' hs.1)
