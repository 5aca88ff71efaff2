-- ===== src/Number.antt =====
-- Decimal numbers in native/share_link_parser.cpp: `parse_int` over `std::from_chars`, and an `int`
-- written to a stream.
pub mod Bounds
pub mod RoundTrip
use entropy_vpn.Base.{
  ℕ, zero, suc, ◌+◌, ◌-◌, ◌*◌, ◌/◌, ◌%◌, ◌^◌, Bool, true, false, List, [], ◌∷◌, ◌++◌, Option, none,
  some, Bytes, ◌==◌, leb, if◌then◌else◌, ℤ, pos, negsuc, int_max,
}
use entropy_vpn.Text.{is_digit}

-- The value of a text that is all digits, behind the value read so far.
read_digits : Bytes → ℕ → Option ℕ
read_digits [] acc = some acc
read_digits (c ∷ s) acc =
    let rest = read_digits s (acc * 10 + (c - b'0')) in if is_digit c then rest else none

-- `from_chars` needs a digit.
read_number : Bytes → Option ℕ
unfolding read_digits
read_number [] = none
read_number (c ∷ s) = read_digits (c ∷ s) 0

-- -n
abbrev negative : ℕ → ℤ
negative zero = pos 0
negative (suc n) = negsuc n

positive_in_range : Option ℕ → Option ℤ
positive_in_range none = none
positive_in_range (some n) = if leb n int_max then some (pos n) else none

negative_in_range : Option ℕ → Option ℤ
negative_in_range none = none
negative_in_range (some n) = if leb n (int_max + 1) then some (negative n) else none

-- `from_chars` into an `int`, where it reads the text to its end: a minus sign, no plus, no space.
from_chars : Bytes → Option ℤ
unfolding read_number positive_in_range negative_in_range
from_chars [] = none
from_chars (c ∷ s) =
    if c == b'-' then negative_in_range (read_number s) else positive_in_range (read_number (c ∷ s))

abbrev or_else : Option ℤ → ℤ → ℤ
or_else none fallback = fallback
or_else (some i) fallback = i

unfoldable pub parse_int : Bytes → ℤ → ℤ
unfolding from_chars
parse_int value fallback = or_else (from_chars value) fallback

-- The digits of `n` in front of `out`; more rounds than the number are enough.
pub write_digits : ℕ → ℕ → Bytes → Bytes
write_digits zero n out = out
write_digits (suc rounds) n out =
    let out' = (b'0' + n % 10) ∷ out in
    elim (n / 10 == 0) [ true ↦ out' | false ↦ write_digits rounds (n / 10) out' ]

-- `json << value`
unfoldable pub write_int : ℤ → Bytes
unfolding write_digits
write_int (pos n) = write_digits (suc n) n []
write_int (negsuc n) = b'-' ∷ write_digits (suc (suc n)) (suc n) []

-- The same for a `long long`.
unfoldable pub write_long : ℤ → Bytes
unfolding write_digits
write_long (pos n) = write_digits (suc n) n []
write_long (negsuc n) = b'-' ∷ write_digits (suc (suc n)) (suc n) []
