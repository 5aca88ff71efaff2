-- ===== src/Text/Trim.antt =====
-- What `trim` leaves.
use entropy_vpn.Base.{
  ◌≤◌, length, ℕ, false, ◌&&◌, [], ◌∷◌, ◌≡◌, refl, inl, inr, arith, Bytes, All, Bool-cases,
  is_empty,
}
use entropy_vpn.Text.{is_space, trim_start, trim_end, trim}

-- The first byte, and the last, is no white space.
abbrev pub StartsPlain : Bytes → Type 0
StartsPlain [] = Unit
StartsPlain (c ∷ s) = is_space c ≡ false

abbrev pub EndsPlain : Bytes → Type 0
EndsPlain [] = Unit
EndsPlain (c ∷ []) = is_space c ≡ false
EndsPlain (c ∷ d ∷ s) = EndsPlain (d ∷ s)

abbrev pub IsTrimmed : Bytes → Type 0
IsTrimmed s = StartsPlain s × EndsPlain s

trim_start-StartsPlain : (s : Bytes) → StartsPlain (trim_start s)
unfolding trim_start
trim_start-StartsPlain [] = tt
trim_start-StartsPlain (c ∷ s) = elim (Bool-cases (is_space c)) [
  | inl h ↦ rw h (trim_start-StartsPlain s)
  | inr h ↦ rw h h
]

EndsPlain-cons :
    (c : ℕ) (s : Bytes) → EndsPlain s → (is_space c && is_empty s) ≡ false → EndsPlain (c ∷ s)
EndsPlain-cons c [] e h = ground arith
EndsPlain-cons c (d ∷ s) e h = e

trim_end-EndsPlain : (s : Bytes) → EndsPlain (trim_end s)
unfolding trim_end
trim_end-EndsPlain [] = tt
trim_end-EndsPlain (c ∷ s) = elim (Bool-cases (is_space c && is_empty (trim_end s))) [
  | inl h ↦ rw h tt
  | inr h ↦ rw h (EndsPlain-cons c (trim_end s) (trim_end-EndsPlain s) h)
]

trim_end-StartsPlain : (s : Bytes) → StartsPlain s → StartsPlain (trim_end s)
unfolding trim_end
trim_end-StartsPlain [] h = tt
trim_end-StartsPlain (c ∷ s) h = rw h h

pub trim-IsTrimmed : (s : Bytes) → IsTrimmed (trim s)
unfolding trim
trim-IsTrimmed s = (
  trim_end-StartsPlain (trim_start s) (trim_start-StartsPlain s),
  trim_end-EndsPlain (trim_start s),
)

pub trim_start_plain : (s : Bytes) → StartsPlain s → trim_start s ≡ s
unfolding trim_start
trim_start_plain [] h = refl
trim_start_plain (c ∷ s) h = rw h

trim_end_plain : (s : Bytes) → EndsPlain s → trim_end s ≡ s
unfolding trim_end
trim_end_plain [] h = refl
trim_end_plain (c ∷ []) h = rw h
trim_end_plain (c ∷ d ∷ s) h = rw (trim_end_plain (d ∷ s) h) (ground arith)

-- Trimming changes exactly the texts that have white space at an end.
pub trim_fixed : (s : Bytes) → IsTrimmed s → trim s ≡ s
unfolding trim
trim_fixed s (h, e) = rw (trim_start_plain s h) (trim_end_plain s e)

pub trim-trim : (s : Bytes) → trim (trim s) ≡ trim s
trim-trim s = trim_fixed (trim s) (trim-IsTrimmed s)

pub StartsPlain-All : (s : Bytes) → All (λ c. is_space c ≡ false) s → StartsPlain s
StartsPlain-All [] h = tt
StartsPlain-All (c ∷ s) h = h.0

pub EndsPlain-All : (s : Bytes) → All (λ c. is_space c ≡ false) s → EndsPlain s
EndsPlain-All [] h = tt
EndsPlain-All (c ∷ []) h = h.0
EndsPlain-All (c ∷ d ∷ s) h = EndsPlain-All (d ∷ s) h.1

-- A text with no white space is left alone.
pub trim_solid : (s : Bytes) → All (λ c. is_space c ≡ false) s → trim s ≡ s
trim_solid s h = trim_fixed s (StartsPlain-All s h, EndsPlain-All s h)

-- Trimming makes no text longer.
pub length-trim_start : (s : Bytes) → length (trim_start s) ≤ length s
unfolding trim_start
length-trim_start [] = omega arith
length-trim_start (c ∷ s) = ground (arith, length-trim_start s)

pub length-trim_end : (s : Bytes) → length (trim_end s) ≤ length s
unfolding trim_end
length-trim_end [] = omega arith
length-trim_end (c ∷ s) = ground (arith, length-trim_end s)

pub length-trim : (s : Bytes) → length (trim s) ≤ length s
unfolding trim
length-trim s = omega (arith, length-trim_start s, length-trim_end (trim_start s))
