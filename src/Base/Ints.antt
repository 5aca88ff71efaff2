-- ===== src/Base/Ints.antt =====
-- A C++ `int` is an integer over the native numbers, with its range written out.
use Prim.Native.Nat.{ℕ, zero, suc, ◌-◌, ◌^◌, ◌≤◌}
use mathlib.Core.Bool.{Bool, true, false}
use entropy_vpn.Base.Tests.{◌==◌}

-- `negsuc n` is -(n + 1).
pub data ℤ : Type 0 where
  pos : ℕ → ℤ
  negsuc : ℕ → ℤ

-- `i == 0`
abbrev pub is_zero : ℤ → Bool
is_zero (pos n) = n == 0
is_zero (negsuc n) = false

-- `i > 0`
abbrev pub is_positive : ℤ → Bool
is_positive (pos zero) = false
is_positive (pos (suc n)) = true
is_positive (negsuc n) = false

abbrev pub int_max : ℕ
int_max = 2 ^ 31 - 1

-- The values of an `int`.
abbrev pub IsInt : ℤ → Type 0
IsInt (pos n) = n ≤ int_max
IsInt (negsuc n) = n ≤ int_max
