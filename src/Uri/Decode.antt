-- ===== src/Uri/Decode.antt =====
-- `url_decode` of native/share_link_parser.cpp, with what `std::strtol` makes of two bytes.
pub mod RoundTrip
use entropy_vpn.Base.{
  ℕ, ◌+◌, ◌-◌, ◌*◌, ◌%◌, Bool, true, false, ◌&&◌, ◌||◌, List, [], ◌∷◌, Option, none, some, Bytes,
  ◌==◌, leb, if◌then◌else◌,
}
use entropy_vpn.Text.{is_digit, is_space}

-- The value of a hexadecimal digit.
unfoldable pub hex_value : ℕ → Option ℕ
hex_value c =
    if is_digit c
    then some (c - b'0')
    else if leb b'a' c && leb c b'f'
    then some (c - b'a' + 10)
    else if leb b'A' c && leb c b'F'
    then some (c - b'A' + 10)
    else none

-- The first byte is a digit of value `high`: the second is a digit too, or ends the C string.
two_digits : ℕ → ℕ → Option ℕ → Option ℕ
two_digits high b (some low) = some (high * 16 + low)
two_digits high b none = if b == 0 then some high else none

-- The first byte is white space or a sign: a digit must follow.
signed_digit : ℕ → Option ℕ → Option ℕ
signed_digit a none = none
signed_digit a (some low) = if a == b'-' then some ((256 - low) % 256) else some low

no_digit : ℕ → ℕ → Option ℕ
unfolding signed_digit hex_value
no_digit a b =
    if a == 0
    then some 0
    else if is_space a || a == b'+' || a == b'-'
    then signed_digit a (hex_value b)
    else none

first_digit : ℕ → ℕ → Option ℕ → Option ℕ
unfolding two_digits no_digit
first_digit a b (some high) = two_digits high b (hex_value b)
first_digit a b none = no_digit a b

-- `strtol(hex, &end, 16)` on the bytes `a` and `b`, as a byte, where it stops at a zero byte
-- (`*end == '\0'`). It skips white space and takes a sign; a zero byte among the two ends the text.
strtol_16 : ℕ → ℕ → Option ℕ
unfolding first_digit hex_value
strtol_16 a b = first_digit a b (hex_value a)

-- A byte that starts no escape.
plain : ℕ → ℕ
plain ch = if ch == b'+' then 32 else ch

-- The loop goes on behind the escape, or behind the one byte.
unescape : Option ℕ → Bytes → Bytes → Bytes
unescape (some decoded) escaped copied = decoded ∷ escaped
unescape none escaped copied = copied

unfoldable pub url_decode : Bytes → Bytes
unfolding plain unescape strtol_16
url_decode [] = []
url_decode (ch ∷ []) = plain ch ∷ []
url_decode (ch ∷ a ∷ []) = plain ch ∷ url_decode (a ∷ [])
url_decode (ch ∷ a ∷ b ∷ s) =
    unescape (if ch == b'%' then strtol_16 a b else none) (url_decode s)
      (plain ch ∷ url_decode (a ∷ b ∷ s))
