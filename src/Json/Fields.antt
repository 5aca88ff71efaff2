-- ===== src/Json/Fields.antt =====
-- `json_string_value`, `json_bool_value` and `json_string_array_value`: each looks for the quoted
-- key anywhere in the text, and reads what follows.
pub mod Search
pub mod Strings
pub mod Arrays
use entropy_vpn.Base.{
  ℕ, zero, suc, Bool, true, false, ◌||◌, List, [], ◌∷◌, ◌++◌, Option, none, some, Bytes, codes,
  ◌==◌, if◌then◌else◌, bytes_eq, length,
}
use entropy_vpn.Json.Escape.{unescape_byte}
use entropy_vpn.Text.{trim, trim_start, strip_prefix, from_first, before_first, is_some}

abbrev pub quote : ℕ
quote = b'"'

abbrev pub backslash : ℕ
backslash = b'\\'

abbrev or_later : Option Bytes → Option Bytes → Option Bytes
or_later (some rest) later = some rest
or_later none later = later

-- `find`, and what stands behind the match.
unfoldable pub text_after : Bytes → Bytes → Option Bytes
text_after n [] = strip_prefix n []
text_after n (c ∷ s) = or_later (strip_prefix n (c ∷ s)) (text_after n s)

abbrev pub needle : Bytes → Bytes
needle key = quote ∷ (key ++ quote ∷ [])

unfoldable pub bind_rest : Option Bytes → (Bytes → Option Bytes) → Option Bytes
bind_rest none f = none
bind_rest (some rest) f = f rest

-- What stands behind the colon that follows the key, white space skipped.
unfoldable pub value_text : Bytes → Bytes → Option Bytes
unfolding bind_rest
value_text json key =
    bind_rest (text_after (needle key) json)
      λ rest. bind_rest (text_after (b':' ∷ []) rest) λ rest'. some (trim_start rest')

abbrev pub push_byte : ℕ → Bytes × Bytes → Bytes × Bytes
push_byte c (out, rest) = (c ∷ out, rest)

-- The loop that reads a string behind its opening quote; the text, and what follows its end.
unfoldable pub read_string : Bytes → Bytes × Bytes
read_string [] = ([], [])
read_string (ch ∷ []) = if ch == quote then ([], []) else (ch ∷ [], [])
read_string (ch ∷ e ∷ s) =
    let escaped = push_byte (unescape_byte e) (read_string s) in
    let copied = push_byte ch (read_string (e ∷ s)) in
    if ch == quote then ([], e ∷ s) else if ch == backslash then escaped else copied

abbrev pub ends_value : ℕ → Bool
ends_value c = c == b',' || c == b'}'

-- A value with no quotes.
unfoldable pub bare_value : Bytes → Bytes
bare_value value = if bytes_eq value (codes "null") then [] else value

unfoldable pub read_value : Option Bytes → Bytes
unfolding bare_value
read_value none = []
read_value (some []) = []
read_value (some (c ∷ s)) =
    if c == quote then (read_string s).0 else bare_value (trim (before_first ends_value (c ∷ s)))

unfoldable pub json_string_value : Bytes → Bytes → Bytes
unfolding read_value
json_string_value json key = read_value (value_text json key)

unfoldable pub read_bool : Option Bytes → Bool
read_bool none = false
read_bool (some rest) = is_some (strip_prefix (codes "true") rest)

unfoldable pub json_bool_value : Bytes → Bytes → Bool
unfolding read_bool
json_bool_value json key = read_bool (value_text json key)

abbrev pub ends_item : ℕ → Bool
ends_item c = c == b',' || c == b']'

-- After an item: the text behind the next comma, unless the array or the text ends first.
unfoldable pub next_item : Bytes → Option Bytes
next_item [] = none
next_item (c ∷ s) = if c == b']' then none else some s

-- One round: the item, if there is a string, and where the loop goes on.
unfoldable pub read_item : Bytes → Option Bytes × Option Bytes
unfolding next_item
read_item [] = (none, none)
read_item (c ∷ s) =
    if c == b']'
    then (none, none)
    else if c == quote
    then (some (read_string s).0, next_item (from_first ends_item (read_string s).1))
    else (none, next_item (from_first ends_item (c ∷ s)))

abbrev pub add_item : Option Bytes → List Bytes → List Bytes
add_item none items = items
add_item (some v) items = v ∷ items

abbrev more_items : Option Bytes → (Bytes → List Bytes) → List Bytes
more_items none f = []
more_items (some rest) f = f rest

-- The loop; each round takes at least one byte, so the length of the text is enough fuel.
unfoldable pub array_items : ℕ → Bytes → List Bytes
array_items zero s = []
array_items (suc fuel) s =
    let item = read_item (trim_start s) in add_item item.0 (more_items item.1 (array_items fuel))

unfoldable pub read_array : Option Bytes → List Bytes
read_array none = []
read_array (some rest) = array_items (length rest) rest

unfoldable pub json_string_array_value : Bytes → Bytes → List Bytes
unfolding read_array bind_rest
json_string_array_value json key =
    read_array (bind_rest (text_after (needle key) json) (text_after (b'[' ∷ [])))
