-- ===== src/Service/Versions/Order.antt =====
-- `CompareVersions` orders versions, and its loop ends.
use entropy_vpn.Base.{
  ℕ, zero, suc, ◌+◌, ◌-◌, ◌*◌, ◌≤◌, ◌<◌, true, false, ◌||◌, ◌==◌, ltb, [], ◌∷◌, Bytes, bytes_eq,
  ◌≡◌, ◌⊎◌, inl, inr, refl, ap, ◌∙◌, if◌then◌else◌, length, ℤ, pos, negsuc, arith, Bool-cases,
}
use entropy_vpn.Config.Matchers.Sorted.{bytes_lt_asym, bytes_lt_total}
use entropy_vpn.Config.Matchers.{bytes_lt}
use entropy_vpn.Service.Versions.{
  segment, starts_dot, without_dot, compare_tails, compare_segments, compare_rounds,
  compare_versions,
}
use entropy_vpn.Text.{is_digit}

-- The result for the two versions the other way round.
abbrev pub swapped : ℤ → ℤ
swapped (pos zero) = pos 0
swapped (pos (suc n)) = negsuc 0
swapped (negsuc n) = pos 1

-- The first version is below, the same as, or above the second.
abbrev pub IsOutcome : ℤ → Type 0
IsOutcome i = (i ≡ negsuc 0) ⊎ ((i ≡ pos 0) ⊎ (i ≡ pos 1))

bytes_eq_sym : (a b : Bytes) → bytes_eq a b ≡ bytes_eq b a
unfolding bytes_eq
bytes_eq_sym [] [] = refl
bytes_eq_sym [] (y ∷ b) = refl
bytes_eq_sym (x ∷ a) [] = refl
bytes_eq_sym (x ∷ a) (y ∷ b) = let later = bytes_eq_sym a b in ground (arith, later)

compare_tails-swapped : (s t : Bytes) → compare_tails t s ≡ swapped (compare_tails s t)
unfolding compare_tails
compare_tails-swapped [] [] = refl
compare_tails-swapped [] (d ∷ t) = refl
compare_tails-swapped (c ∷ s) [] = refl
compare_tails-swapped (c ∷ s) (d ∷ t) =
    let a = c ∷ s in
    let b = d ∷ t in
    elim (Bool-cases (bytes_eq a b)) [
      | inl e ↦ rw (e, bytes_eq_sym b a ∙ e) refl
      | inr e ↦ elim (Bool-cases (bytes_lt a b)) [
        | inl lt ↦ rw (e, bytes_eq_sym b a ∙ e, lt, bytes_lt_asym a b lt) refl
        | inr ge ↦
            rw (e, bytes_eq_sym b a ∙ e, ge, bytes_lt_total a b ge (bytes_eq_sym b a ∙ e)) refl
      ]
    ]

compare_segments-swapped :
    (later : Bytes → Bytes → ℤ) (p q : ℕ × Bytes)
    → ((s t : Bytes) → later t s ≡ swapped (later s t))
    → compare_segments later q p ≡ swapped (compare_segments later p q)
unfolding compare_segments
compare_segments-swapped later (m, s) (n, t) h =
    let turned : (n == m) ≡ (m == n) = ground arith in
    let dots : (starts_dot t || starts_dot s) ≡ (starts_dot s || starts_dot t) = ground arith in
    elim (Bool-cases (m == n)) [
      | inl e ↦ elim (Bool-cases (starts_dot s || starts_dot t)) [
        | inl dot ↦ rw (turned, e, dots, dot) (h (without_dot s) (without_dot t))
        | inr none_left ↦ rw (turned, e, dots, none_left) (compare_tails-swapped s t)
      ]
      | inr e ↦ elim (Bool-cases (ltb m n)) [
        | inl lt ↦ let ge : ltb n m ≡ false = ground arith in rw (turned, e, lt, ge) refl
        | inr ge ↦ let lt : ltb n m ≡ true = ground arith in rw (turned, e, lt, ge) refl
      ]
    ]

compare_rounds-swapped :
    (f : ℕ) (left right : Bytes)
    → compare_rounds f right left ≡ swapped (compare_rounds f left right)
unfolding compare_rounds
compare_rounds-swapped zero left right = refl
compare_rounds-swapped (suc f) left right =
    compare_segments-swapped (compare_rounds f) (segment 0 left) (segment 0 right)
      (compare_rounds-swapped f)

-- For any two texts, CompareVersions of the two the other way round gives the opposite result:
-- below and above are exchanged, and equal stays equal.
pub compare_versions-swapped :
    (left right : Bytes) → compare_versions right left ≡ swapped (compare_versions left right)
unfolding compare_versions
compare_versions-swapped left right =
    let same : suc (length right + length left) ≡ suc (length left + length right) = omega arith in
    ap (λ f. compare_rounds f right left) same
    ∙ compare_rounds-swapped (suc (length left + length right)) left right

pub length-segment : (v : ℕ) (s : Bytes) → length (segment v s).1 ≤ length s
unfolding segment
length-segment v [] = omega arith
length-segment v (c ∷ s) =
    let later = length-segment (v * 10 + (c - b'0')) s in
    elim (Bool-cases (is_digit c)) [
      | inl e ↦ rw e (omega (arith, later))
      | inr e ↦ rw e (omega arith)
    ]

-- A dot is taken off where there is one.
length-without_dot :
    (s : Bytes) → length (without_dot s) + (if starts_dot s then 1 else 0) ≡ length s
unfolding without_dot starts_dot
length-without_dot [] = omega arith
length-without_dot (c ∷ s) = elim (Bool-cases (c == b'.')) [
  | inl e ↦ rw e (omega arith)
  | inr e ↦ rw e (omega arith)
]

compare_segments-eq :
    (later other : Bytes → Bytes → ℤ) (p q : ℕ × Bytes)
    → ((s t : Bytes) → length s + length t < length p.1 + length q.1 → later s t ≡ other s t)
    → compare_segments later p q ≡ compare_segments other p q
unfolding compare_segments
compare_segments-eq later other (m, s) (n, t) h = elim (Bool-cases (m == n)) [
  | inl e ↦ elim (Bool-cases (starts_dot s || starts_dot t)) [
    | inl dot ↦
        let a = length-without_dot s in
        let b = length-without_dot t in
        rw (e, dot) (h (without_dot s) (without_dot t) (ground (arith, a, b, dot)))
    | inr none_left ↦ rw (e, none_left) refl
  ]
  | inr e ↦ rw e refl
]

compare_rounds-eq :
    (f g : ℕ) (left right : Bytes)
    → length left + length right < f
    → length left + length right < g
    → compare_rounds f left right ≡ compare_rounds g left right
unfolding compare_rounds
compare_rounds-eq zero g left right hf hg = ground arith
compare_rounds-eq (suc f) zero left right hf hg = ground arith
compare_rounds-eq (suc f) (suc g) left right hf hg =
    let a = length-segment 0 left in
    let b = length-segment 0 right in
    compare_segments-eq (compare_rounds f) (compare_rounds g) (segment 0 left) (segment 0 right)
      (λ s t small.
        compare_rounds-eq f g s t (omega (arith, a, b, small, hf)) (omega (arith, a, b, small, hg)))

-- More rounds than characters change nothing: the loop has ended by then.
pub compare_versions-compare_rounds :
    (f : ℕ) (left right : Bytes)
    → length left + length right < f
    → compare_versions left right ≡ compare_rounds f left right
unfolding compare_versions
compare_versions-compare_rounds f left right h =
    compare_rounds-eq (suc (length left + length right)) f left right (omega arith) h
