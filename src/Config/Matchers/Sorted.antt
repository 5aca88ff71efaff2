-- ===== src/Config/Matchers/Sorted.antt =====
-- What `sorted_unique` returns: an ascending list of the texts that are not blank.
use entropy_vpn.Base.{
  Bool, true, false, List, [], ◌∷◌, Bytes, ◌≡◌, refl, ap, arith, ◌∙◌, Bool-cases, inl, inr, ◌&&◌,
  ◌||◌, is_empty, bytes_eq, bytes_eq_iff, not,
}
use entropy_vpn.Config.Matchers.{
  bytes_lt, keep_filled, insert, sort, keep_new, unique, sorted_unique,
}
use entropy_vpn.Text.{trim}

-- The list starts with no text that is smaller than `x`.
abbrev StartsFrom : Bytes → List Bytes → Type 0
StartsFrom x [] = Unit
StartsFrom x (y ∷ ys) = bytes_lt y x ≡ false

-- No text is larger than the next.
abbrev IsSorted : List Bytes → Type 0
IsSorted [] = Unit
IsSorted (x ∷ ys) = StartsFrom x ys × IsSorted ys

abbrev pub StartsAbove : Bytes → List Bytes → Type 0
StartsAbove x [] = Unit
StartsAbove x (y ∷ ys) = bytes_lt x y ≡ true

-- Each text is smaller than the next.
abbrev pub IsAscending : List Bytes → Type 0
IsAscending [] = Unit
IsAscending (x ∷ ys) = StartsAbove x ys × IsAscending ys

pub bytes_lt_asym : (a b : Bytes) → bytes_lt a b ≡ true → bytes_lt b a ≡ false
unfolding bytes_lt
bytes_lt_asym [] [] h = refl
bytes_lt_asym [] (y ∷ b) h = refl
bytes_lt_asym (x ∷ a) [] h = ground arith
bytes_lt_asym (x ∷ a) (y ∷ b) h = ground (arith, bytes_lt_asym a b)

pub bytes_lt_total :
    (a b : Bytes) → bytes_lt a b ≡ false → bytes_eq b a ≡ false → bytes_lt b a ≡ true
unfolding bytes_lt bytes_eq
bytes_lt_total [] [] h e = ground arith
bytes_lt_total [] (y ∷ b) h e = ground arith
bytes_lt_total (x ∷ a) [] h e = refl
bytes_lt_total (x ∷ a) (y ∷ b) h e = ground (arith, bytes_lt_total a b)

insert-StartsFrom :
    (x y : Bytes) (ys : List Bytes)
    → StartsFrom y ys
    → bytes_lt x y ≡ false
    → StartsFrom y (insert x ys)
unfolding insert
insert-StartsFrom x y [] h lt = lt
insert-StartsFrom x y (z ∷ ys) h lt = elim (Bool-cases (bytes_lt z x)) [
  | inl below ↦ rw below h
  | inr above ↦ rw above lt
]

insert-IsSorted : (x : Bytes) (ys : List Bytes) → IsSorted ys → IsSorted (insert x ys)
unfolding insert
insert-IsSorted x [] h = (tt, tt)
insert-IsSorted x (y ∷ ys) h = elim (Bool-cases (bytes_lt y x)) [
  | inl below ↦
      rw below (insert-StartsFrom x y ys h.0 (bytes_lt_asym y x below), insert-IsSorted x ys h.1)
  | inr above ↦ rw above (above, h)
]

sort-IsSorted : (values : List Bytes) → IsSorted (sort values)
unfolding sort
sort-IsSorted [] = tt
sort-IsSorted (v ∷ values) = insert-IsSorted v (sort values) (sort-IsSorted values)

-- Dropping repeated texts keeps the first one, and makes the order strict.
keep_new-IsAscending :
    (x : Bytes) (ys : List Bytes) → IsAscending ys → StartsFrom x ys → IsAscending (keep_new x ys)
keep_new-IsAscending x [] h f = (tt, tt)
keep_new-IsAscending x (y ∷ ys) h f = elim (Bool-cases (bytes_eq x y)) [
  | inl same ↦ rw same h
  | inr other ↦ rw other (bytes_lt_total y x f other, h)
]

keep_new-StartsFrom :
    (w x : Bytes) (ys : List Bytes) → bytes_lt x w ≡ false → StartsFrom w (keep_new x ys)
keep_new-StartsFrom w x [] h = h
keep_new-StartsFrom w x (y ∷ ys) h = elim (Bool-cases (bytes_eq x y)) [
  | inl same ↦ rw (same, ← (bytes_eq_iff x y).0 same) h
  | inr other ↦ rw other h
]

unique-StartsFrom :
    (w : Bytes) (values : List Bytes) → StartsFrom w values → StartsFrom w (unique values)
unfolding unique
unique-StartsFrom w [] h = tt
unique-StartsFrom w (v ∷ values) h = keep_new-StartsFrom w v (unique values) h

unique-IsAscending : (values : List Bytes) → IsSorted values → IsAscending (unique values)
unfolding unique
unique-IsAscending [] h = tt
unique-IsAscending (v ∷ values) h =
    keep_new-IsAscending v (unique values) (unique-IsAscending values h.1)
      (unique-StartsFrom v values h.0)

-- Whether a text stands in a list.
unfoldable pub has : Bytes → List Bytes → Bool
has v [] = false
has v (x ∷ xs) = bytes_eq x v || has v xs

insert-has : (v x : Bytes) (ys : List Bytes) → has v (insert x ys) ≡ (bytes_eq x v || has v ys)
unfolding insert has
insert-has v x [] = refl
insert-has v x (y ∷ ys) = ground (arith, insert-has v x ys)

sort-has : (v : Bytes) (values : List Bytes) → has v (sort values) ≡ has v values
unfolding sort has
sort-has v [] = refl
sort-has v (x ∷ values) =
    insert-has v x (sort values) ∙ ap (λ b. bytes_eq x v || b) (sort-has v values)

keep_new-has : (v x : Bytes) (ys : List Bytes) → has v (keep_new x ys) ≡ (bytes_eq x v || has v ys)
unfolding has
keep_new-has v x [] = refl
keep_new-has v x (y ∷ ys) = elim (Bool-cases (bytes_eq x y)) [
  | inl same ↦ rw (same, (bytes_eq_iff x y).0 same) (ground arith)
  | inr other ↦ rw other refl
]

unique-has : (v : Bytes) (values : List Bytes) → has v (unique values) ≡ has v values
unfolding unique has
unique-has v [] = refl
unique-has v (x ∷ values) =
    keep_new-has v x (unique values) ∙ ap (λ b. bytes_eq x v || b) (unique-has v values)

keep_filled-has :
    (v : Bytes) (values : List Bytes)
    → has v (keep_filled values) ≡ (has v values && not (is_empty (trim v)))
unfolding keep_filled has
keep_filled-has v [] = refl
keep_filled-has v (x ∷ values) = elim (Bool-cases (bytes_eq x v)) [
  | inl same ↦
      rw ((bytes_eq_iff x v).0 same)
        (ground (arith, keep_filled-has v values, (bytes_eq_iff v v).1 refl))
  | inr other ↦ ground (arith, keep_filled-has v values)
]

-- In what sorted_unique returns, each text is smaller than the next; and a text stands in it just
-- when it stands in the given list and is not blank.
pub sorted_unique-IsAscending :
    (values : List Bytes)
    → IsAscending (sorted_unique values)
      × ((v : Bytes) → has v (sorted_unique values) ≡ (has v values && not (is_empty (trim v))))
unfolding sorted_unique
sorted_unique-IsAscending values = (
  unique-IsAscending (sort (keep_filled values)) (sort-IsSorted (keep_filled values)),
  λ v.
      unique-has v (sort (keep_filled values))
      ∙ sort-has v (keep_filled values)
      ∙ keep_filled-has v values,
)

has-is_empty : (v : Bytes) (vs : List Bytes) → has v vs ≡ true → is_empty vs ≡ false
unfolding has
has-is_empty v [] h = cc
has-is_empty v (w ∷ vs) h = refl

pub sorted_unique-is_empty :
    (v : Bytes) (vs : List Bytes)
    → is_empty (trim v) ≡ false
    → is_empty (sorted_unique (v ∷ vs)) ≡ false
sorted_unique-is_empty v vs filled = has-is_empty v (sorted_unique (v ∷ vs)) (
    (sorted_unique-IsAscending (v ∷ vs)).1 v
    ∙ unfold has in rw ((bytes_eq_iff v v).1 refl, filled) refl)
