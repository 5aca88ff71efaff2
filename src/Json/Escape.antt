-- ===== src/Json/Escape.antt =====
-- `json_escape_to`, and the escapes that `json_string_value` and `json_string_array_value` read.
use entropy_vpn.Base.{ℕ, ◌+◌, ◌-◌, ◌/◌, ◌%◌, [], ◌∷◌, ◌++◌, Bytes, codes, ◌==◌, ltb, if◌then◌else◌}

-- `kHex[d]`
unfoldable pub k_hex : ℕ → ℕ
k_hex d = if ltb d 10 then b'0' + d else b'a' + (d - 10)

abbrev escaped : ℕ → Bytes
escaped c = b'\\' ∷ c ∷ []

-- What is written for one byte.
unfoldable pub escape_byte : ℕ → Bytes
escape_byte ch =
    if ch == b'"'
    then escaped b'"'
    else if ch == b'\\'
    then escaped b'\\'
    else if ch == 8
    then escaped b'b'
    else if ch == 12
    then escaped b'f'
    else if ch == 10
    then escaped b'n'
    else if ch == 13
    then escaped b'r'
    else if ch == 9
    then escaped b't'
    else if ltb ch 32
    then codes "\\u00" ++ k_hex (ch / 16 % 16) ∷ k_hex (ch % 16) ∷ []
    else ch ∷ []

unfoldable pub json_escape : Bytes → Bytes
json_escape [] = []
json_escape (ch ∷ value) = escape_byte ch ++ json_escape value

-- The byte that an escape stands for; one that is not known stands for itself.
unfoldable pub unescape_byte : ℕ → ℕ
unescape_byte escaped =
    if escaped == b'b'
    then 8
    else if escaped == b'f'
    then 12
    else if escaped == b'n'
    then 10
    else if escaped == b'r'
    then 13
    else if escaped == b't'
    then 9
    else escaped
