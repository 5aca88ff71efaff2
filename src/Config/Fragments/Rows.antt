-- ===== src/Config/Fragments/Rows.antt =====
-- The objects that `add_string`, `add_int`, `add_bool` and `add_string_array` write are JSON.
use entropy_vpn.Base.{
  true, false, ◌&&◌, List, [], ◌∷◌, Option, none, some, Bytes, ◌≡◌, All, is_empty, is_zero,
  Bool-cases, inl, inr, arith,
}
use entropy_vpn.Config.Fragments.WellFormed.{
  is_name, StartsValue, empty_object, object_value, StartsMembers, last_member, next_member,
  IsValue, quoted-IsValue, quoted_array-IsValue, write_int-IsValue, true-IsValue,
}
use entropy_vpn.Json.Rows.{
  Field, string_field, int_field, bool_field, array_field, field_text, put_row, rows, write_object,
  write_object-rows_append,
}
use entropy_vpn.Profile.{Profile, profile_fields, to_json}

abbrev TextIsValue : Option Bytes → Type 0
TextIsValue none = Unit
TextIsValue (some s) = IsValue s

field_text-IsValue : (f : Field) → TextIsValue (field_text f)
unfolding field_text
field_text-IsValue (string_field v) = elim (Bool-cases (is_empty v)) [
  | inl off ↦ rw off tt
  | inr on ↦ rw on (quoted-IsValue v)
]
field_text-IsValue (int_field i omit_zero) = elim (Bool-cases (omit_zero && is_zero i)) [
  | inl off ↦ rw off tt
  | inr on ↦ rw on (write_int-IsValue i)
]
field_text-IsValue (bool_field true) = true-IsValue
field_text-IsValue (bool_field false) = tt
field_text-IsValue (array_field vs) = elim (Bool-cases (is_empty vs)) [
  | inl off ↦ rw off tt
  | inr on ↦ rw on (quoted_array-IsValue vs)
]

abbrev pub AreNames : List (Bytes × Field) → Type 0
AreNames = All (λ (f : Bytes × Field). is_name f.0 ≡ true)

later_row :
    (key : Bytes) (text : Option Bytes) {t rest : Bytes}
    → is_name key ≡ true
    → TextIsValue text
    → StartsMembers t rest
    → StartsMembers (put_row false key text t t) rest
later_row key none name h more = more
later_row key (some value) {t} name h more = next_member key name (h t) more

rows-StartsMembers :
    (fields : List (Bytes × Field)) (rest : Bytes)
    → AreNames fields
    → StartsMembers (rows false fields (b'}' ∷ rest)) rest
unfolding rows
rows-StartsMembers [] rest h = last_member rest
rows-StartsMembers ((key, field) ∷ fields) rest h =
    later_row key (field_text field) h.0 (field_text-IsValue field)
      (rows-StartsMembers fields rest h.1)

first_row :
    (key : Bytes) (text : Option Bytes) {s t rest : Bytes}
    → is_name key ≡ true
    → TextIsValue text
    → StartsValue (b'{' ∷ s) rest
    → StartsMembers t rest
    → StartsValue (b'{' ∷ put_row true key text s t) rest
first_row key none name h none_yet more = none_yet
first_row key (some value) {t = t} name h none_yet more = object_value key name (h t) more

rows-StartsValue :
    (fields : List (Bytes × Field)) (rest : Bytes)
    → AreNames fields
    → StartsValue (b'{' ∷ rows true fields (b'}' ∷ rest)) rest
unfolding rows
rows-StartsValue [] rest h = empty_object rest
rows-StartsValue ((key, field) ∷ fields) rest h =
    first_row key (field_text field) h.0 (field_text-IsValue field)
      (rows-StartsValue fields rest h.1) (rows-StartsMembers fields rest h.1)

pub write_object-IsValue :
    (fields : List (Bytes × Field)) → AreNames fields → IsValue (write_object fields)
write_object-IsValue fields h rest =
    rw (write_object-rows_append fields rest) (rows-StartsValue fields rest h)

profile_fields-AreNames : (p : Profile) → AreNames (profile_fields p)
profile_fields-AreNames p = ground arith

-- The text that to_json writes for a profile is one JSON value after RFC 8259, whatever the
-- profile. Bytes outside ASCII may stand in its strings: that they are UTF-8 is not part of the
-- statement.
pub to_json-IsValue : (p : Profile) → IsValue (to_json p)
unfolding to_json
to_json-IsValue p = write_object-IsValue (profile_fields p) (profile_fields-AreNames p)
