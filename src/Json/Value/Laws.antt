-- ===== src/Json/Value/Laws.antt =====
-- What is found after a write or an erasure.
use entropy_vpn.Base.{
  false, none, some, Bytes, ◌≡◌, refl, ◌∙◌, ap, bytes_eq, bytes_eq_iff, if◌then◌else◌, arith,
  Bool-cases, inl, inr,
}
use entropy_vpn.Config.Matchers.{bytes_lt}
use entropy_vpn.Json.Value.{
  Json, Members, object, no_members, entry, members_of, or_null, find_member, at, assign_member,
  erase_member, set_member, erase,
}

module _ {N : Type 0} where
  find_member-assign_member :
      (key other : Bytes) (value : Json N) (ms : Members N)
      → find_member other (assign_member key value ms)
        ≡ (if bytes_eq key other then some value else find_member other ms)
  unfolding find_member assign_member
  find_member-assign_member key other value no_members = refl
  find_member-assign_member key other value (entry k v ms) = elim (Bool-cases (bytes_eq k key)) [
    | inl same ↦ rw (same, (bytes_eq_iff k key).0 same) (ground arith)
    | inr differ ↦ elim (Bool-cases (bytes_lt key k)) [
      | inl before ↦ rw (differ, before) refl
      | inr behind ↦
          rw (differ, behind, find_member-assign_member key other value ms)
            (elim (Bool-cases (bytes_eq k other)) [
              | inl here ↦
                  rw here (rw (← (bytes_eq_iff k other).0 here, differ_sym k key differ) refl)
              | inr there ↦ rw there refl
            ])
    ]
  ]
    where
      differ_sym : (a b : Bytes) → bytes_eq a b ≡ false → bytes_eq b a ≡ false
      differ_sym a b h = ground (arith, bytes_eq_iff a b, bytes_eq_iff b a)

  find_member-erase_member :
      (key other : Bytes) (ms : Members N)
      → find_member other (erase_member key ms)
        ≡ (if bytes_eq key other then none else find_member other ms)
  unfolding find_member erase_member
  find_member-erase_member key other no_members = ground arith
  find_member-erase_member key other (entry k v ms) = ground (
    arith,
    bytes_eq_iff k key,
    bytes_eq_iff k other,
    bytes_eq_iff key other,
    find_member-erase_member key other ms,
  )

  pub at-set_member : (key : Bytes) (value j : Json N) → at (set_member key value j) key ≡ value
  unfolding at set_member
  at-set_member key value j =
      ap or_null (find_member-assign_member key key value (members_of j))
      ∙ rw ((bytes_eq_iff key key).1 refl) refl

  pub at-set_member_other :
      (key other : Bytes) (value j : Json N)
      → bytes_eq key other ≡ false
      → at (set_member key value j) other ≡ at j other
  unfolding at set_member
  at-set_member_other key other value j h =
      ap or_null (find_member-assign_member key other value (members_of j)) ∙ rw h refl

  members_of-erase :
      (key : Bytes) (j : Json N) → members_of (erase key j) ≡ erase_member key (members_of j)
  unfolding erase erase_member
  members_of-erase key (object ms) = refl
  members_of-erase key _ = refl

  pub at-erase_other :
      (key other : Bytes) (j : Json N)
      → bytes_eq key other ≡ false
      → at (erase key j) other ≡ at j other
  unfolding at
  at-erase_other key other j h =
      ap (λ ms. or_null (find_member other ms)) (members_of-erase key j)
      ∙ ap or_null (find_member-erase_member key other (members_of j))
      ∙ rw h refl

  pub at-erase : (key : Bytes) (j : Json N) → at (erase key j) key ≡ Json.null
  unfolding at
  at-erase key j =
      ap (λ ms. or_null (find_member key ms)) (members_of-erase key j)
      ∙ ap or_null (find_member-erase_member key key (members_of j))
      ∙ rw ((bytes_eq_iff key key).1 refl) refl
