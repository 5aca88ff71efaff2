-- ===== src/Profile/Checked.antt =====
-- A test that is enough for `IsPlain`: no string is a key or holds a quote, and there is no control
-- character.
use entropy_vpn.Base.{
  ◌<◌, Bool, true, not, ◌&&◌, List, [], ◌∷◌, Bytes, All, pos, negsuc, int_max, leb, ◌≡◌, ◌≢◌, ap,
  arith,
}
use entropy_vpn.Json.Fields.Search.{Clear, HidesKey}
use entropy_vpn.Json.Fields.Strings.{IsShort}
use entropy_vpn.Json.Fields.{quote}
use entropy_vpn.Json.Rows.Lookup.{FieldClear}
use entropy_vpn.Json.Rows.{Field, string_field, int_field, bool_field, array_field}
use entropy_vpn.Profile.RoundTrip.{IsPlain, is_read, FieldShort}
use entropy_vpn.Profile.{Profile, profile_fields}
use entropy_vpn.Text.{contains}

-- Printable, and no quote.
abbrev is_simple : Bytes → Bool
is_simple [] = true
is_simple (c ∷ v) = leb 32 c && not (contains quote (c ∷ [])) && is_simple v

module _ (reads : Bytes → Bool) where
  abbrev is_checked : Bytes → Bool
  is_checked v = is_simple v && not (reads v)

  abbrev are_checked : List Bytes → Bool
  are_checked [] = true
  are_checked (v ∷ vs) = is_checked v && are_checked vs

  abbrev is_checked_field : Field → Bool
  is_checked_field (string_field v) = is_checked v
  is_checked_field (int_field (pos n) omit_zero) = leb n int_max
  is_checked_field (int_field (negsuc n) omit_zero) = leb n int_max
  is_checked_field (bool_field b) = true
  is_checked_field (array_field vs) = are_checked vs

  abbrev pub are_checked_fields : List (Bytes × Field) → Bool
  are_checked_fields [] = true
  are_checked_fields ((key, field) ∷ fields) = is_checked_field field && are_checked_fields fields

  simple-IsShort : (v : Bytes) → is_simple v ≡ true → All IsShort v
  simple-IsShort [] h = tt
  simple-IsShort (c ∷ v) h = ((λ low. absurd (printable low)), simple-IsShort v (ground arith))
    where
      printable : ¬ (c < 32)
      printable low = ground arith

  simple_hides : (k v : Bytes) → is_simple v ≡ true → HidesKey k v
  simple_hides k [] h = tt
  simple_hides k (c ∷ v) h = ((λ e. absurd (no_quote e)), simple_hides k v (ground arith))
    where
      no_quote : c ≢ quote
      no_quote e = ground arith

  and_true : (a b : Bool) → (a && b) ≡ true → (a ≡ true) × (b ≡ true)
  and_true a b h = ground arith

  checked-Clear : (k v : Bytes) → reads k ≡ true → is_checked v ≡ true → Clear k v
  checked-Clear k v r h =
      let (simple, unread) = and_true (is_simple v) (not (reads v)) h in
      ((λ e. clash e unread), simple_hides k v simple)
    where
      clash : v ≡ k → not (reads v) ≡ true → ⊥
      clash e unread = cc (unread, ap (λ w. not (reads w)) e, ap not r)

  checked-All-Clear :
      (k : Bytes) (vs : List Bytes) → reads k ≡ true → are_checked vs ≡ true → All (Clear k) vs
  checked-All-Clear k [] r h = tt
  checked-All-Clear k (v ∷ vs) r h =
      let (first, later) = and_true (is_checked v) (are_checked vs) h in
      (checked-Clear k v r first, checked-All-Clear k vs r later)

  checked-All-IsShort : (vs : List Bytes) → are_checked vs ≡ true → All (All IsShort) vs
  checked-All-IsShort [] h = tt
  checked-All-IsShort (v ∷ vs) h =
      let (first, later) = and_true (is_checked v) (are_checked vs) h in
      (simple-IsShort v (and_true (is_simple v) _ first).0, checked-All-IsShort vs later)

  field_clear :
      (k : Bytes) (f : Field) → reads k ≡ true → is_checked_field f ≡ true → FieldClear k f
  field_clear k (string_field v) r h = checked-Clear k v r h
  field_clear k (int_field i omit_zero) r h = tt
  field_clear k (bool_field b) r h = tt
  field_clear k (array_field vs) r h = checked-All-Clear k vs r h

  field_short : (f : Field) → is_checked_field f ≡ true → FieldShort f
  field_short (string_field v) h = simple-IsShort v (and_true (is_simple v) _ h).0
  field_short (int_field (pos n) omit_zero) h = ground arith
  field_short (int_field (negsuc n) omit_zero) h = ground arith
  field_short (bool_field b) h = tt
  field_short (array_field vs) h = checked-All-IsShort vs h

  fields_clear :
      (k : Bytes) (fields : List (Bytes × Field))
      → reads k ≡ true
      → are_checked_fields fields ≡ true
      → All (λ (f : Bytes × Field). FieldClear k f.1) fields
  fields_clear k [] r h = tt
  fields_clear k ((key, field) ∷ fields) r h =
      let (first, later) = and_true (is_checked_field field) (are_checked_fields fields) h in
      (field_clear k field r first, fields_clear k fields r later)

  fields_short :
      (fields : List (Bytes × Field))
      → are_checked_fields fields ≡ true
      → All (λ (f : Bytes × Field). FieldShort f.1) fields
  fields_short [] h = tt
  fields_short ((key, field) ∷ fields) h =
      let (first, later) = and_true (is_checked_field field) (are_checked_fields fields) h in
      (field_short field first, fields_short fields later)

-- The test, with the four conditions on single fields.
pub IsPlain-checked :
    (p : Profile)
    → are_checked_fields (λ k. is_read k (profile_fields p)) (profile_fields p) ≡ true
    → p.transport ≢ []
    → p.tls_mode ≢ []
    → p.sing_box_config_json ≡ []
    → p.xray_config_json ≡ []
    → IsPlain p
IsPlain-checked p h transport tls sing_box xray = record {
  clear = λ k r. fields_clear (λ k. is_read k (profile_fields p)) k (profile_fields p) r h;
  short = fields_short (λ k. is_read k (profile_fields p)) (profile_fields p) h;
  transport_ne_nil = transport;
  tls_mode_ne_nil = tls;
  no_sing_box = sing_box;
  no_xray = xray;
}
