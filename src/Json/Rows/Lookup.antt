-- ===== src/Json/Rows/Lookup.antt =====
-- Where the search for a key ends in the text of an object.
use entropy_vpn.Base.{
  ℕ, Bool, true, false, List, [], ◌∷◌, ◌++◌, append_assoc, Option, none, some, Bytes, All, All-map,
  codes, if◌then◌else◌, bytes_eq, bytes_eq_iff, Bool-cases, Option-cases, inl, inr, ◌≡◌, ◌≢◌, ◌⊎◌,
  refl, sym, ◌∙◌, ap, arith,
}
use entropy_vpn.Json.Escape.{json_escape, escape_byte}
use entropy_vpn.Json.Fields.Search.{
  IsKey, IsAlnum, Clear, HidesKey, StartsOther, text_after_plain, text_after-quoted, text_after_key,
  text_after_nil,
}
use entropy_vpn.Json.Fields.{quote, needle, text_after}
use entropy_vpn.Json.Rows.{
  Field, string_field, int_field, bool_field, array_field, field_text, rows, write_object,
  write_object-rows,
}
use entropy_vpn.Json.Writer.{separator, quoted, more_quoted, quoted_array}
use entropy_vpn.Number.RoundTrip.{IsNumeric, write_int-IsNumeric}
use entropy_vpn.Number.{write_int}
use entropy_vpn.Text.{is_alnum}

-- The strings of a field are clear of the key.
abbrev pub FieldClear : Bytes → Field → Type 0
FieldClear k (string_field v) = Clear k v
FieldClear k (array_field vs) = All (Clear k) vs
FieldClear k _ = Unit

-- Every key is one, and every string is clear of `k`.
abbrev pub AreClear : Bytes → List (Bytes × Field) → Type 0
AreClear k = All (λ (f : Bytes × Field). IsKey f.0 × FieldClear k f.1)

-- The first field of that key that is written, with the text behind its value.
abbrev pick : Option Bytes → Option (Bytes × Bytes) → Bytes → Option (Bytes × Bytes)
pick none later rest = later
pick (some value) later rest = some (value, rest)

unfoldable pub find_row : Bytes → List (Bytes × Field) → Bytes → Option (Bytes × Bytes)
find_row k [] end = none
find_row k ((key, field) ∷ fields) end =
    let later = find_row k fields end in
    if bytes_eq key k then pick (field_text field) later (rows false fields end) else later

abbrev pub row_text : Option (Bytes × Bytes) → Option Bytes
row_text none = none
row_text (some (value, rest)) = some (b':' ∷ (value ++ rest))

-- A text behind a value: a comma or the closing brace, or nothing.
abbrev pub EndsValue : Bytes → Type 0
EndsValue [] = ⊥
EndsValue (c ∷ s) = (c ≡ b',') ⊎ (c ≡ b'}')

pub rows-EndsValue :
    (fields : List (Bytes × Field)) (end : Bytes)
    → EndsValue end
    → EndsValue (rows false fields end)
unfolding rows
rows-EndsValue [] end h = h
rows-EndsValue ((key, field) ∷ fields) end h = elim (Option-cases (field_text field)) [
  | inl out ↦ rw out (rows-EndsValue fields end h)
  | inr (value, written) ↦ rw written (inl refl)
]

EndsValue-StartsOther : (s : Bytes) → EndsValue s → StartsOther s
EndsValue-StartsOther [] h = tt
EndsValue-StartsOther (c ∷ s) h = ground arith

escape_byte_alnum : (c : ℕ) → is_alnum c ≡ true → escape_byte c ≡ c ∷ []
unfolding escape_byte
escape_byte_alnum c h = ground arith

json_escape_alnum : (k : Bytes) → IsAlnum k → json_escape k ≡ k
unfolding json_escape
json_escape_alnum [] h = refl
json_escape_alnum (c ∷ k) h = rw (escape_byte_alnum c h.0, json_escape_alnum k h.1)

HidesKey-alnum : (k j : Bytes) → IsAlnum j → HidesKey k j
HidesKey-alnum k [] h = tt
HidesKey-alnum k (c ∷ j) h = (λ e. absurd (quote_not_alnum c e h.0), HidesKey-alnum k j h.1)
  where
    quote_not_alnum : (c : ℕ) → c ≡ quote → is_alnum c ≢ true
    quote_not_alnum c e h = ground arith

Clear-alnum : (k j : Bytes) → IsAlnum j → j ≢ k → Clear k j
Clear-alnum k j h ne = (ne, HidesKey-alnum k j h)

quoted_alnum : (key rest : Bytes) → IsAlnum key → quoted key ++ rest ≡ quote ∷ (key ++ quote ∷ rest)
unfolding quoted
quoted_alnum key rest h =
    rw (json_escape_alnum key h) (ap (◌∷◌ quote) (append_assoc key (quote ∷ []) rest))

more_quoted-StartsOther :
    (vs : List Bytes) (rest : Bytes) → StartsOther (more_quoted vs ++ b']' ∷ rest)
unfolding more_quoted
more_quoted-StartsOther [] rest = refl
more_quoted-StartsOther (v ∷ vs) rest = refl

module _ (k : Bytes) (hk : IsKey k) where
  -- The search runs past the rest of an array.
  text_after-more_quoted :
      (vs : List Bytes) (rest : Bytes)
      → All (Clear k) vs
      → text_after (needle k) (more_quoted vs ++ b']' ∷ rest) ≡ text_after (needle k) rest
  unfolding more_quoted
  text_after-more_quoted [] rest h = text_after_plain k (b']' ∷ []) rest (omega arith)
  text_after-more_quoted (v ∷ vs) rest h =
      text_after_plain k (b',' ∷ []) _ (omega arith)
      ∙ ap (text_after (needle k)) (append_assoc (quoted v) (more_quoted vs) (b']' ∷ rest))
      ∙ text_after-quoted k v _ hk h.0 (more_quoted-StartsOther vs rest)
      ∙ text_after-more_quoted vs rest h.1

  text_after-quoted_array :
      (vs : List Bytes) (rest : Bytes)
      → All (Clear k) vs
      → text_after (needle k) (quoted_array vs ++ rest) ≡ text_after (needle k) rest
  unfolding quoted_array
  text_after-quoted_array [] rest h = text_after_plain k (b'[' ∷ b']' ∷ []) rest (omega arith)
  text_after-quoted_array (v ∷ vs) rest h =
      text_after_plain k (b'[' ∷ []) _ (omega arith)
      ∙ ap (text_after (needle k)) (
          append_assoc (quoted v ++ more_quoted vs) (b']' ∷ []) rest
          ∙ append_assoc (quoted v) (more_quoted vs) (b']' ∷ rest))
      ∙ text_after-quoted k v _ hk h.0 (more_quoted-StartsOther vs rest)
      ∙ text_after-more_quoted vs rest h.1

  -- The search runs past the value of a field.
  text_after-field_text :
      (field : Field) (value rest : Bytes)
      → FieldClear k field
      → field_text field ≡ some value
      → StartsOther rest
      → text_after (needle k) (value ++ rest) ≡ text_after (needle k) rest
  unfolding field_text
  text_after-field_text (string_field v) value rest h e hr =
      let same : value ≡ quoted v = ground arith in rw same (text_after-quoted k v rest hk h hr)
  text_after-field_text (int_field i omit_zero) value rest h e hr =
      let same : value ≡ write_int i = ground arith in
      rw same (
        text_after_plain k (write_int i) rest
          (All-map (λ c (d : IsNumeric c). ground arith) _ (write_int-IsNumeric i)))
  text_after-field_text (bool_field b) value rest h e hr =
      let same : value ≡ codes "true" = ground arith in
      rw same (text_after_plain k (codes "true") rest (omega arith))
  text_after-field_text (array_field vs) value rest h e hr =
      let same : value ≡ quoted_array vs = ground arith in
      rw same (text_after-quoted_array vs rest h)

  -- The search runs past the key of another field, and ends at its own.
  text_after_other_key :
      (key rest : Bytes)
      → IsAlnum key
      → key ≢ k
      → text_after (needle k) (quote ∷ (key ++ quote ∷ b':' ∷ rest)) ≡ text_after (needle k) rest
  text_after_other_key key rest h ne =
      ap (text_after (needle k)) (sym (quoted_alnum key (b':' ∷ rest) h))
      ∙ text_after-quoted k key (b':' ∷ rest) hk (Clear-alnum k key h ne) refl
      ∙ text_after_plain k (b':' ∷ []) rest (omega arith)

  text_after-separator :
      (first : Bool) (s : Bytes)
      → text_after (needle k) (separator first ++ s) ≡ text_after (needle k) s
  text_after-separator true s = refl
  text_after-separator false s = text_after_plain k (b',' ∷ []) s (omega arith)

  -- The search for a key in the fields of an object ends at the field of that key.
  text_after-rows :
      (first : Bool) (fields : List (Bytes × Field)) (end : Bytes)
      → AreClear k fields
      → EndsValue end
      → text_after (needle k) end ≡ none
      → text_after (needle k) (rows first fields end) ≡ row_text (find_row k fields end)
  unfolding find_row rows
  text_after-rows first [] end h he miss = miss
  text_after-rows first ((key, field) ∷ fields) end h he miss =
      elim (Option-cases (field_text field)) [
        | inl out ↦ rw out (text_after-rows first fields end h.1 he miss ∙ ground arith)
        | inr (value, written) ↦ rw written (
            text_after-separator first _ ∙ elim (Bool-cases (bytes_eq key k)) [
              | inl same ↦ rw same (
                  ap
                    (λ x.
                      text_after (needle k)
                        (quote ∷ (x ++ quote ∷ b':' ∷ (value ++ rows false fields end))))
                    ((bytes_eq_iff key k).0 same)
                  ∙ text_after_key k _)
              | inr other ↦ rw other (
                  text_after_other_key key _ h.0.0.1 (λ e. cc ((bytes_eq_iff key k).1 e, other))
                  ∙ text_after-field_text field value (rows false fields end) h.0.1 written
                      (EndsValue-StartsOther _ (rows-EndsValue fields end he))
                  ∙ text_after-rows false fields end h.1 he miss)
            ])
      ]

-- What stands behind a key in the text of an object.
pub text_after-write_object :
    (k : Bytes) (fields : List (Bytes × Field))
    → IsKey k
    → AreClear k fields
    → text_after (needle k) (write_object fields) ≡ row_text (find_row k fields (b'}' ∷ []))
text_after-write_object k fields hk h =
    ap (text_after (needle k)) (write_object-rows fields)
    ∙ text_after_plain k (b'{' ∷ []) _ (omega arith)
    ∙ text_after-rows k hk true fields (b'}' ∷ []) h (inr refl)
        (text_after_plain k (b'}' ∷ []) [] (omega arith) ∙ text_after_nil k)
