-- ===== src/Number/Bounds.antt =====
-- What `parse_int` can return.
use entropy_vpn.Base.{[], ◌∷◌, Bytes, arith, ℤ, pos, negsuc, IsInt, ◌≢◌}
use entropy_vpn.Number.{parse_int}

abbrev pub IsNonneg : ℤ → Type 0
IsNonneg (pos n) = Unit
IsNonneg (negsuc n) = ⊥

-- The result is an `int`.
pub parse_int-IsInt : (s : Bytes) (fallback : ℤ) → IsInt fallback → IsInt (parse_int s fallback)
unfolding parse_int
parse_int-IsInt [] fallback h = h
parse_int-IsInt (c ∷ s) fallback h = ground arith

-- The first byte, if there is one, is no minus sign.
abbrev pub IsUnsigned : Bytes → Type 0
IsUnsigned [] = Unit
IsUnsigned (c ∷ s) = c ≢ b'-'

-- Without a minus sign in front the result is not negative.
pub parse_int-IsNonneg : (s : Bytes) → IsUnsigned s → IsNonneg (parse_int s (pos 0))
unfolding parse_int
parse_int-IsNonneg [] h = tt
parse_int-IsNonneg (c ∷ s) h = ground arith
