-- ===== src/Json/Writer.antt =====
-- `add_string`, `add_int`, `add_bool` and `add_string_array` of native/share_link_parser.cpp: the
-- object written so far with the flag `first`.
use entropy_vpn.Base.{
  Bool, true, false, ◌&&◌, List, [], ◌∷◌, ◌++◌, Bytes, codes, if◌then◌else◌, is_empty, ℤ, is_zero,
}
use entropy_vpn.Json.Escape.{json_escape}
use entropy_vpn.Json.Fields.{quote}
use entropy_vpn.Number.{write_int}

pub record JsonObject : Type 0 where
  pub text : Bytes
  pub first : Bool

-- `json << '{'` with `first = true`.
abbrev pub open_object : JsonObject
open_object = record { text = b'{' ∷ []; first = true }

-- `write_string`
unfoldable pub quoted : Bytes → Bytes
quoted value = quote ∷ (json_escape value ++ quote ∷ [])

-- `if (!first) json << ','`
abbrev pub separator : Bool → Bytes
separator true = []
separator false = b',' ∷ []

-- The comma, the key and the value.
unfoldable pub put_field : JsonObject → Bytes → Bytes → JsonObject
put_field json key value = record {
  text = json.text ++ (separator json.first ++ quote ∷ (key ++ quote ∷ b':' ∷ value));
  first = false;
}

unfoldable pub add_string : JsonObject → Bytes → Bytes → JsonObject
unfolding put_field
add_string json key value = if is_empty value then json else put_field json key (quoted value)

unfoldable pub add_int : JsonObject → Bytes → ℤ → Bool → JsonObject
unfolding put_field
add_int json key value omit_zero =
    if omit_zero && is_zero value then json else put_field json key (write_int value)

unfoldable pub add_bool : JsonObject → Bytes → Bool → JsonObject
unfolding put_field
add_bool json key value = if value then put_field json key (codes "true") else json

-- The items behind the first one, each behind a comma.
unfoldable pub more_quoted : List Bytes → Bytes
more_quoted [] = []
more_quoted (v ∷ values) = b',' ∷ (quoted v ++ more_quoted values)

unfoldable pub quoted_items : List Bytes → Bytes
unfolding more_quoted
quoted_items [] = []
quoted_items (v ∷ values) = quoted v ++ more_quoted values

-- `write_string_array`
unfoldable pub quoted_array : List Bytes → Bytes
unfolding quoted_items
quoted_array values = b'[' ∷ (quoted_items values ++ b']' ∷ [])

unfoldable pub add_string_array : JsonObject → Bytes → List Bytes → JsonObject
unfolding put_field
add_string_array json key values =
    if is_empty values then json else put_field json key (quoted_array values)

-- `json << '}'`
unfoldable pub close_object : JsonObject → Bytes
close_object json = json.text ++ b'}' ∷ []
