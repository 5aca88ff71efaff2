-- ===== src/Json/Rows.antt =====
-- An object as a list of fields, in the order in which they are added.
pub mod Lookup
pub mod Readers
use entropy_vpn.Base.{
  ℕ, Bool, true, false, ◌&&◌, List, [], ◌∷◌, ◌++◌, append-nil, append_assoc, Option, none, some,
  Bytes, codes, if◌then◌else◌, is_empty, ℤ, is_zero, ◌≡◌, refl, sym, ◌∙◌, ap, arith,
}
use entropy_vpn.Json.Fields.{quote}
use entropy_vpn.Json.Writer.{
  JsonObject, open_object, quoted, quoted_array, separator, put_field, add_string, add_int,
  add_bool, add_string_array, close_object,
}
use entropy_vpn.Number.{write_int}

-- One call of `add_string`, `add_int`, `add_bool` or `add_string_array`.
pub data Field : Type 0 where
  string_field : Bytes → Field
  int_field : ℤ → Bool → Field
  bool_field : Bool → Field
  array_field : List Bytes → Field

unfoldable pub add_field : JsonObject → Bytes × Field → JsonObject
add_field json (key, string_field value) = add_string json key value
add_field json (key, int_field value omit_zero) = add_int json key value omit_zero
add_field json (key, bool_field value) = add_bool json key value
add_field json (key, array_field values) = add_string_array json key values

unfoldable pub add_fields : JsonObject → List (Bytes × Field) → JsonObject
unfolding add_field
add_fields json [] = json
add_fields json (field ∷ fields) = add_fields (add_field json field) fields

-- `{`, the fields and `}`.
unfoldable pub write_object : List (Bytes × Field) → Bytes
unfolding add_fields
write_object fields = close_object (add_fields open_object fields)

-- The value that is written, unless the field is left out.
unfoldable pub field_text : Field → Option Bytes
field_text (string_field v) = if is_empty v then none else some (quoted v)
field_text (int_field i omit_zero) = if omit_zero && is_zero i then none else some (write_int i)
field_text (bool_field b) = if b then some (codes "true") else none
field_text (array_field vs) = if is_empty vs then none else some (quoted_array vs)

abbrev pub put_row : Bool → Bytes → Option Bytes → Bytes → Bytes → Bytes
put_row first key none skipped rest = skipped
put_row first key (some value) skipped rest =
    separator first ++ (quote ∷ (key ++ quote ∷ b':' ∷ (value ++ rest)))

-- The text of the fields, with what follows them.
unfoldable pub rows : Bool → List (Bytes × Field) → Bytes → Bytes
rows first [] end = end
rows first ((key, field) ∷ fields) end =
    put_row first key (field_text field) (rows first fields end) (rows false fields end)

put_or_skip : JsonObject → Bytes → Option Bytes → JsonObject
put_or_skip json key none = json
put_or_skip json key (some value) = put_field json key value

add_field-put_or_skip :
    (json : JsonObject) (key : Bytes) (field : Field)
    → add_field json (key, field) ≡ put_or_skip json key (field_text field)
unfolding add_field field_text put_or_skip add_string add_int add_bool add_string_array
add_field-put_or_skip json key (string_field v) = ground arith
add_field-put_or_skip json key (int_field i omit_zero) = ground arith
add_field-put_or_skip json key (bool_field b) = ground arith
add_field-put_or_skip json key (array_field vs) = ground arith

add_fields-rows :
    (json : JsonObject) (fields : List (Bytes × Field)) (end : Bytes)
    → (add_fields json fields).text ++ end ≡ json.text ++ rows json.first fields end
unfolding add_fields rows
add_fields-rows json [] end = refl
add_fields-rows json ((key, field) ∷ fields) end =
    ap (λ j. (add_fields j fields).text ++ end) (add_field-put_or_skip json key field)
    ∙ add_fields-rows (put_or_skip json key (field_text field)) fields end
    ∙ one_row (field_text field)
  where
    one_row :
        (t : Option Bytes)
        → (put_or_skip json key t).text ++ rows (put_or_skip json key t).first fields end
          ≡ json.text
            ++ put_row json.first key t (rows json.first fields end) (rows false fields end)
    one_row none = unfold put_or_skip in refl
    one_row (some value) = unfold put_or_skip put_field in simp append_assoc

-- The text of an object.
pub write_object-rows :
    (fields : List (Bytes × Field)) → write_object fields ≡ b'{' ∷ rows true fields (b'}' ∷ [])
unfolding write_object close_object
write_object-rows fields = add_fields-rows open_object fields (b'}' ∷ [])

-- The same, with what follows the object.
pub write_object-rows_append :
    (fields : List (Bytes × Field)) (rest : Bytes)
    → write_object fields ++ rest ≡ b'{' ∷ rows true fields (b'}' ∷ rest)
unfolding write_object close_object
write_object-rows_append fields rest =
    append_assoc (add_fields open_object fields).text (b'}' ∷ []) rest
    ∙ add_fields-rows open_object fields (b'}' ∷ rest)
