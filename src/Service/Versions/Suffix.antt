-- ===== src/Service/Versions/Suffix.antt =====
-- A version with a suffix is below the version itself.
use entropy_vpn.Base.{
  ℕ, zero, suc, ◌+◌, ◌-◌, ◌*◌, ◌≤◌, ◌<◌, true, ◌||◌, ◌==◌, [], ◌∷◌, ◌++◌, Bytes, ◌≡◌, refl, length,
  negsuc, ℤ, arith, All, Bool-cases, inl, inr, ==_refl,
}
use entropy_vpn.Service.Versions.Order.{length-segment}
use entropy_vpn.Service.Versions.{
  segment, starts_dot, without_dot, compare_tails, compare_segments, compare_rounds,
  compare_versions,
}
use entropy_vpn.Text.{is_digit}

-- Digits and dots.
abbrev pub IsNumeric : Bytes → Type 0
IsNumeric = All (λ c. (is_digit c || c == b'.') ≡ true)

-- What follows a segment: nothing, or a dot and the next segments.
abbrev IsRest : Bytes → Type 0
IsRest [] = Unit
IsRest (c ∷ s) = ((c == b'.') ≡ true) × IsNumeric s

segment-IsRest : (v : ℕ) (s : Bytes) → IsNumeric s → IsRest (segment v s).1
unfolding segment
segment-IsRest v [] h = tt
segment-IsRest v (c ∷ s) h = elim (Bool-cases (is_digit c)) [
  | inl e ↦ rw e (segment-IsRest (v * 10 + (c - b'0')) s h.1)
  | inr e ↦ rw e (ground (arith, h.0), h.1)
]

segment-append :
    (v : ℕ) (s x : Bytes)
    → IsNumeric s
    → segment v (s ++ b'-' ∷ x) ≡ ((segment v s).0, (segment v s).1 ++ b'-' ∷ x)
unfolding segment
segment-append v [] x h = refl
segment-append v (c ∷ s) x h = elim (Bool-cases (is_digit c)) [
  | inl e ↦ rw e (segment-append (v * 10 + (c - b'0')) s x h.1)
  | inr e ↦ rw e refl
]

compare_segments-suffix :
    (later : Bytes → Bytes → ℤ) (n : ℕ) (s x : Bytes)
    → IsRest s
    → ((t : Bytes) → suc (length t) ≤ length s → IsNumeric t → later (t ++ b'-' ∷ x) t ≡ negsuc 0)
    → compare_segments later (n, s ++ b'-' ∷ x) (n, s) ≡ negsuc 0
unfolding compare_segments starts_dot without_dot compare_tails
compare_segments-suffix later n [] x h k = rw (==_refl n) refl
compare_segments-suffix later n (c ∷ s) x h k = rw (==_refl n, h.0) (k s (omega arith) h.1)

compare_rounds-suffix :
    (f : ℕ) (s x : Bytes)
    → IsNumeric s
    → length s < f
    → compare_rounds f (s ++ b'-' ∷ x) s ≡ negsuc 0
unfolding compare_rounds
compare_rounds-suffix zero s x h few = ground arith
compare_rounds-suffix (suc f) s x h few =
    let shorter = length-segment 0 s in
    rw (segment-append 0 s x h) (
      compare_segments-suffix (compare_rounds f) (segment 0 s).0 (segment 0 s).1 x
        (segment-IsRest 0 s h)
        (λ t small ht. compare_rounds-suffix f t x ht (omega (arith, small, shorter, few))))

-- A version of digits and dots with a suffix behind a minus sign is below the version without it,
-- whatever the suffix, as the rule of SemVer for pre-releases wants.
pub compare_versions-suffix :
    (version suffix : Bytes)
    → IsNumeric version
    → compare_versions (version ++ b'-' ∷ suffix) version ≡ negsuc 0
unfolding compare_versions
compare_versions-suffix version suffix h =
    compare_rounds-suffix (suc (length (version ++ b'-' ∷ suffix) + length version)) version suffix
      h (omega arith)
