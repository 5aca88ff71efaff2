-- ===== src/Uri/Query.antt =====
-- `parse_query`, `query_value` and `first_query_value` of native/share_link_parser.cpp.
pub mod RoundTrip
use entropy_vpn.Base.{
  ℕ, Bool, true, false, List, [], ◌∷◌, Option, none, some, Bytes, ◌==◌, if◌then◌else◌, is_empty,
  bytes_eq,
}
use entropy_vpn.Text.{trim, cut_first, pieces}
use entropy_vpn.Uri.Decode.{url_decode}

-- A `std::map` from strings to strings, read by key only.
abbrev pub QueryMap : Type 0
QueryMap = List (Bytes × Bytes)

-- `query.find(key)`
unfoldable pub find_key : QueryMap → Bytes → Option Bytes
find_key [] key = none
find_key ((k, v) ∷ query) key = if bytes_eq k key then some v else find_key query key

-- `query[key] = value`
unfoldable pub assign : QueryMap → Bytes → Bytes → QueryMap
assign [] key value = (key, value) ∷ []
assign ((k, v) ∷ query) key value =
    if bytes_eq k key then (k, value) ∷ query else (k, v) ∷ assign query key value

assign_part : QueryMap → Bytes → Option (Bytes × Bytes) → QueryMap
assign_part query part none = assign query (url_decode part) []
assign_part query part (some (key, value)) = assign query (url_decode key) (url_decode value)

-- One round of the loop.
add_part : QueryMap → Bytes → QueryMap
unfolding assign_part
add_part query part = if is_empty part then query else assign_part query part (cut_first b'=' part)

add_parts : QueryMap → List Bytes → QueryMap
unfolding add_part
add_parts query [] = query
add_parts query (part ∷ parts) = add_parts (add_part query part) parts

unfoldable pub parse_query : Bytes → QueryMap
unfolding add_parts
parse_query raw = add_parts [] (pieces (λ c. c == b'&') raw)

trim_found : Option Bytes → Bytes
trim_found none = []
trim_found (some value) = trim value

unfoldable pub query_value : QueryMap → Bytes → Bytes
unfolding trim_found
query_value query key = trim_found (find_key query key)

-- The first of the keys that has a value.
unfoldable pub first_query_value : QueryMap → List Bytes → Bytes
unfolding query_value
first_query_value query [] = []
first_query_value query (key ∷ keys) =
    let later = first_query_value query keys in
    let value = query_value query key in if is_empty value then later else value
