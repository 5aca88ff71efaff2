-- ===== src/Json/Rows/Readers.antt =====
-- Reading the fields of a written object back.
use entropy_vpn.Base.{
  ℕ, Bool, true, false, List, [], ◌∷◌, ◌++◌, append_assoc, Option, none, some, Bytes, All, All-map,
  codes, if◌then◌else◌, bytes_eq, Bool-cases, Option-cases, inl, inr, ◌≡◌, ◌≢◌, refl, sym, ◌∙◌, ap,
  arith, ℤ,
}
use entropy_vpn.Json.Fields.Arrays.{array_items-quoted_items, length-quoted_items}
use entropy_vpn.Json.Fields.Search.{IsKey, text_after_prefix}
use entropy_vpn.Json.Fields.Strings.{IsShort, read_string-json_escape}
use entropy_vpn.Json.Fields.{
  needle, text_after, value_text, bind_rest, read_value, bare_value, read_bool, read_array,
  ends_value, json_string_value, json_bool_value, json_string_array_value,
}
use entropy_vpn.Json.Rows.Lookup.{
  AreClear, EndsValue, find_row, row_text, rows-EndsValue, text_after-write_object,
}
use entropy_vpn.Json.Rows.{
  Field, string_field, int_field, bool_field, array_field, field_text, write_object,
}
use entropy_vpn.Json.Writer.{quoted, quoted_array, quoted_items}
use entropy_vpn.Number.RoundTrip.{IsNumeric, write_int-IsNumeric, write_int-cons}
use entropy_vpn.Number.{write_int}
use entropy_vpn.Text.Trim.{trim_start_plain, trim_solid}
use entropy_vpn.Text.Search.{strip_prefix-append}
use entropy_vpn.Text.{is_space, trim, trim_start, before_first, strip_prefix}

-- The field of a key, if it is written.
abbrev pub keep : Field → Option Bytes → Option Field → Option Field
keep f none later = later
keep f (some value) later = some f

unfoldable pub find_field : Bytes → List (Bytes × Field) → Option Field
find_field k [] = none
find_field k ((key, field) ∷ fields) =
    let later = find_field k fields in
    if bytes_eq key k then keep field (field_text field) later else later

-- What `find_row` finds is the text of that field, with the end of its value behind it.
abbrev RowOf : Option Field → Option (Bytes × Bytes) → Type 0
RowOf none none = Unit
RowOf (some f) (some (value, rest)) = (field_text f ≡ some value) × EndsValue rest
RowOf none (some r) = ⊥
RowOf (some f) none = ⊥

find_row-RowOf :
    (k : Bytes) (fields : List (Bytes × Field)) (end : Bytes)
    → EndsValue end
    → RowOf (find_field k fields) (find_row k fields end)
unfolding find_field find_row
find_row-RowOf k [] end h = tt
find_row-RowOf k ((key, field) ∷ fields) end h = elim (Bool-cases (bytes_eq key k)) [
  | inl same ↦ rw same (elim (Option-cases (field_text field)) [
    | inl out ↦ rw out (find_row-RowOf k fields end h)
    | inr (value, written) ↦ rw written (written, rows-EndsValue fields end h)
  ])
  | inr other ↦ rw other (find_row-RowOf k fields end h)
]

abbrev behind : Option (Bytes × Bytes) → Option Bytes
behind none = none
behind (some (value, rest)) = some (trim_start (value ++ rest))

value_text-row_text :
    (json k : Bytes) (row : Option (Bytes × Bytes))
    → text_after (needle k) json ≡ row_text row
    → value_text json k ≡ behind row
unfolding value_text bind_rest
value_text-row_text json k none e = rw e
value_text-row_text json k (some (value, rest)) e =
    rw (e, text_after_prefix b':' [] (value ++ rest))

-- What the readers return for a field.
abbrev pub string_at : Option Field → Bytes
string_at (some (string_field v)) = v
string_at (some (int_field i omit_zero)) = write_int i
string_at _ = []

-- A string of short bytes, or a number: what `json_string_value` can read.
abbrev pub HoldsString : Option Field → Type 0
HoldsString none = Unit
HoldsString (some (string_field v)) = All IsShort v
HoldsString (some (int_field i omit_zero)) = Unit
HoldsString _ = ⊥

read_value-quoted :
    (v rest : Bytes) → All IsShort v → read_value (some (trim_start (quoted v ++ rest))) ≡ v
unfolding quoted
read_value-quoted v rest h =
    ap (λ s. read_value (some s)) (trim_start_plain (quoted v ++ rest) refl)
    ∙ unfold read_value in rw (append_assoc, read_string-json_escape v rest h)

before_first_stop :
    (s rest : Bytes)
    → All (λ c. ends_value c ≡ false) s
    → EndsValue rest
    → before_first ends_value (s ++ rest) ≡ s
unfolding before_first
before_first_stop [] [] h e = absurd e
before_first_stop [] (c ∷ rest) h e = ground arith
before_first_stop (c ∷ s) rest h e = rw (h.0, before_first_stop s rest h.1 e)

-- A text with no quotes, no white space and no comma is read whole.
read_value-bare :
    (c : ℕ) (s rest : Bytes)
    → All IsNumeric (c ∷ s)
    → EndsValue rest
    → read_value (some (trim_start ((c ∷ s) ++ rest))) ≡ c ∷ s
read_value-bare c s rest h e =
    let head : is_space c ≡ false = plain_head c h.0 in
    ap (λ t. read_value (some t)) (trim_start_plain ((c ∷ s) ++ rest) head)
    ∙ not_quoted c (s ++ rest) h.0
    ∙ ap (λ t. bare_value (trim t))
        (before_first_stop (c ∷ s) rest
          (All-map {Q = λ d. ends_value d ≡ false} (λ d (n : IsNumeric d). ground arith) (c ∷ s) h)
          e)
    ∙ ap bare_value (trim_solid (c ∷ s) (All-map plain_head (c ∷ s) h))
    ∙ not_null c s h.0
  where
    plain_head : (d : ℕ) → IsNumeric d → is_space d ≡ false
    plain_head d n = ground arith

    not_quoted :
        (d : ℕ) (t : Bytes)
        → IsNumeric d
        → read_value (some (d ∷ t)) ≡ bare_value (trim (before_first ends_value (d ∷ t)))
    not_quoted d t n = unfold read_value in ground arith

    not_null : (d : ℕ) (t : Bytes) → IsNumeric d → bare_value (d ∷ t) ≡ d ∷ t
    not_null d t n = unfold bare_value bytes_eq in ground arith

read_value-write_int :
    (i : ℤ) (rest : Bytes)
    → EndsValue rest
    → read_value (some (trim_start (write_int i ++ rest))) ≡ write_int i
read_value-write_int i rest h =
    let (c, s, e, d) = write_int-cons i in
    ap (λ (t : Bytes). read_value (some (trim_start (t ++ rest)))) e
    ∙ read_value-bare c s rest (rw e at (write_int-IsNumeric i)) h
    ∙ sym e

read_value-string_at :
    (f : Option Field) (row : Option (Bytes × Bytes))
    → RowOf f row
    → HoldsString f
    → read_value (behind row) ≡ string_at f
unfolding field_text
read_value-string_at none none r h = unfold read_value in refl
read_value-string_at (some (string_field v)) (some (value, rest)) r h =
    let e : value ≡ quoted v = ground arith in rw e (read_value-quoted v rest h)
read_value-string_at (some (int_field i omit_zero)) (some (value, rest)) r h =
    let e : value ≡ write_int i = ground arith in rw e (read_value-write_int i rest r.1)
read_value-string_at (some (bool_field b)) row r h = absurd h
read_value-string_at (some (array_field vs)) row r h = absurd h
read_value-string_at none (some x) r h = absurd r
read_value-string_at (some (string_field v)) none r h = absurd r
read_value-string_at (some (int_field i omit_zero)) none r h = absurd r

-- In an object that the writer made, json_string_value of a key (not empty, letters and digits)
-- returns the text of the first field of that key that was written, or nothing when there is none;
-- when every key is such a key, no string of the object is the key or holds a quote with the key
-- behind it, and the field is a number or a string with no control character that lacks a short
-- escape.
pub json_string_value-write_object :
    (k : Bytes) (fields : List (Bytes × Field))
    → IsKey k
    → AreClear k fields
    → HoldsString (find_field k fields)
    → json_string_value (write_object fields) k ≡ string_at (find_field k fields)
unfolding json_string_value
json_string_value-write_object k fields hk clear h =
    ap read_value
      (value_text-row_text (write_object fields) k _ (text_after-write_object k fields hk clear))
    ∙ read_value-string_at (find_field k fields) _ (find_row-RowOf k fields (b'}' ∷ []) (inr refl))
        h

abbrev pub flag_at : Option Field → Bool
flag_at (some (bool_field b)) = b
flag_at _ = false

abbrev pub HoldsFlag : Option Field → Type 0
HoldsFlag none = Unit
HoldsFlag (some (bool_field b)) = Unit
HoldsFlag _ = ⊥

read_bool-flag_at :
    (f : Option Field) (row : Option (Bytes × Bytes))
    → RowOf f row
    → HoldsFlag f
    → read_bool (behind row) ≡ flag_at f
unfolding field_text read_bool
read_bool-flag_at none none r h = refl
read_bool-flag_at (some (bool_field true)) (some (value, rest)) r h =
    let e : value ≡ codes "true" = ground arith in
    rw (e, trim_start_plain (codes "true" ++ rest) refl, strip_prefix-append (codes "true") rest)
read_bool-flag_at (some (bool_field false)) (some (value, rest)) r h = ground arith
read_bool-flag_at (some (string_field v)) row r h = absurd h
read_bool-flag_at (some (int_field i omit_zero)) row r h = absurd h
read_bool-flag_at (some (array_field vs)) row r h = absurd h
read_bool-flag_at none (some x) r h = absurd r
read_bool-flag_at (some (bool_field b)) none r h = absurd r

-- In an object that the writer made, json_bool_value of a key returns the value of the first field
-- of that key that was written (a false one is not), or false when there is none: when this field,
-- if there is one, is Boolean, and under the same conditions on keys and strings as for
-- json_string_value.
pub json_bool_value-write_object :
    (k : Bytes) (fields : List (Bytes × Field))
    → IsKey k
    → AreClear k fields
    → HoldsFlag (find_field k fields)
    → json_bool_value (write_object fields) k ≡ flag_at (find_field k fields)
unfolding json_bool_value
json_bool_value-write_object k fields hk clear h =
    ap read_bool
      (value_text-row_text (write_object fields) k _ (text_after-write_object k fields hk clear))
    ∙ read_bool-flag_at (find_field k fields) _ (find_row-RowOf k fields (b'}' ∷ []) (inr refl)) h

abbrev pub items_at : Option Field → List Bytes
items_at (some (array_field vs)) = vs
items_at _ = []

abbrev pub HoldsItems : Option Field → Type 0
HoldsItems none = Unit
HoldsItems (some (array_field vs)) = All (All IsShort) vs
HoldsItems _ = ⊥

-- What stands behind the bracket of an array that follows a key.
abbrev bracket : Option Bytes → Option Bytes
bracket text = bind_rest text (text_after (b'[' ∷ []))

bracket-quoted_array :
    (vs : List Bytes) (rest : Bytes)
    → bracket (some (b':' ∷ (quoted_array vs ++ rest))) ≡ some (quoted_items vs ++ b']' ∷ rest)
unfolding quoted_array text_after strip_prefix bind_rest
bracket-quoted_array vs rest = ap some (append_assoc (quoted_items vs) (b']' ∷ []) rest)

read_array-quoted_array :
    (vs : List Bytes) (rest : Bytes)
    → vs ≢ []
    → All (All IsShort) vs
    → read_array (bracket (some (b':' ∷ (quoted_array vs ++ rest)))) ≡ vs
read_array-quoted_array [] rest ne h = absurd (ne refl)
read_array-quoted_array (v ∷ vs) rest ne h =
    ap read_array (bracket-quoted_array (v ∷ vs) rest)
    ∙ unfold read_array in array_items-quoted_items _ v vs rest (length-quoted_items v vs rest) h

read_array-items_at :
    (f : Option Field) (row : Option (Bytes × Bytes))
    → RowOf f row
    → HoldsItems f
    → read_array (bracket (row_text row)) ≡ items_at f
unfolding field_text
read_array-items_at none none r h = unfold read_array bind_rest in refl
read_array-items_at (some (array_field [])) (some (value, rest)) r h = ground arith
read_array-items_at (some (array_field (v ∷ vs))) (some (value, rest)) r h =
    let e : value ≡ quoted_array (v ∷ vs) = ground arith in
    rw e (read_array-quoted_array (v ∷ vs) rest (cc) h)
read_array-items_at (some (string_field v)) row r h = absurd h
read_array-items_at (some (int_field i omit_zero)) row r h = absurd h
read_array-items_at (some (bool_field b)) row r h = absurd h
read_array-items_at none (some x) r h = absurd r
read_array-items_at (some (array_field vs)) none r h = absurd r

-- In an object that the writer made, json_string_array_value of a key returns the items of the
-- first field of that key that was written, or none when there is none: when this field, if there
-- is one, is an array of strings with no control character that lacks a short escape, and under
-- the same conditions on keys and strings as for json_string_value.
pub json_string_array_value-write_object :
    (k : Bytes) (fields : List (Bytes × Field))
    → IsKey k
    → AreClear k fields
    → HoldsItems (find_field k fields)
    → json_string_array_value (write_object fields) k ≡ items_at (find_field k fields)
unfolding json_string_array_value
json_string_array_value-write_object k fields hk clear h =
    ap (λ t. read_array (bracket t)) (text_after-write_object k fields hk clear)
    ∙ read_array-items_at (find_field k fields) _ (find_row-RowOf k fields (b'}' ∷ []) (inr refl)) h
