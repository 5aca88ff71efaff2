-- ===== src/Service/Versions.antt =====
-- `CompareVersions` of windows/runner/entropy_vpn_service_manifest.cpp. A segment is a number of any
-- size, where C++ leaves one that does not fit `long long` undefined.
pub mod Order
pub mod Suffix
use entropy_vpn.Base.{
  ℕ, zero, suc, ◌+◌, ◌-◌, ◌*◌, Bool, true, false, not, ◌&&◌, ◌||◌, ◌==◌, ltb, List, [], ◌∷◌, Bytes,
  bytes_eq, if◌then◌else◌, is_empty, length, ℤ, pos, negsuc,
}
use entropy_vpn.Config.Matchers.{bytes_lt}
use entropy_vpn.Text.{is_digit}

-- The number in front, with the digits so far, and what follows it.
unfoldable pub segment : ℕ → Bytes → ℕ × Bytes
segment value [] = (value, [])
segment value (c ∷ s) =
    let later = segment (value * 10 + (c - b'0')) s in if is_digit c then later else (value, c ∷ s)

unfoldable pub starts_dot : Bytes → Bool
starts_dot [] = false
starts_dot (c ∷ s) = c == b'.'

unfoldable pub without_dot : Bytes → Bytes
without_dot [] = []
without_dot (c ∷ s) = if c == b'.' then s else c ∷ s

-- A version with a suffix is below the one without; two suffixes are compared as texts.
unfoldable pub compare_tails : Bytes → Bytes → ℤ
compare_tails [] [] = pos 0
compare_tails [] (d ∷ t) = pos 1
compare_tails (c ∷ s) [] = negsuc 0
compare_tails (c ∷ s) (d ∷ t) =
    if bytes_eq (c ∷ s) (d ∷ t) then pos 0 else if bytes_lt (c ∷ s) (d ∷ t) then negsuc 0 else pos 1

-- What a round of the loop does with the two segments, and the next round.
unfoldable pub compare_segments : (Bytes → Bytes → ℤ) → ℕ × Bytes → ℕ × Bytes → ℤ
unfolding starts_dot without_dot compare_tails
compare_segments later (m, s) (n, t) =
    if m == n
    then (if starts_dot s || starts_dot t
        then later (without_dot s) (without_dot t)
        else compare_tails s t)
    else if ltb m n
    then negsuc 0
    else pos 1

-- Another round takes a dot off one of the texts.
unfoldable pub compare_rounds : ℕ → Bytes → Bytes → ℤ
unfolding compare_segments segment
compare_rounds zero left right = pos 0
compare_rounds (suc f) left right =
    compare_segments (compare_rounds f) (segment 0 left) (segment 0 right)

unfoldable pub compare_versions : Bytes → Bytes → ℤ
unfolding compare_rounds
compare_versions left right = compare_rounds (suc (length left + length right)) left right
