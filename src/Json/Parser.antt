-- ===== src/Json/Parser.antt =====
-- `JsonParser` of native/share_link_parser.cpp, with `read_hex4` and `append_utf8`. The text from
-- `pos_` on stands for the position. Where `pos_ += 4` runs past the end, nothing is left; the code
-- reads nothing from there on either.
pub mod Strings
pub mod Fuel
pub mod InTime
pub mod Sorted
pub mod RoundTrip
use entropy_vpn.Base.{
  ℕ, zero, suc, ◌+◌, ◌-◌, ◌*◌, ◌/◌, ◌%◌, ◌^◌, Bool, true, false, ◌&&◌, ◌||◌, List, [], ◌∷◌, ◌++◌,
  Option, none, some, Bytes, codes, ◌==◌, ltb, leb, if◌then◌else◌, length, drop,
}
use entropy_vpn.Json.Escape.{unescape_byte}
use entropy_vpn.Json.Value.{
  Doubles, Json, Items, Members, null, bool, number, string, array, object, no_items, item,
  no_members, entry, assign_member,
}
use entropy_vpn.Result.{Result, ok, err, ◌>>=◌}
use entropy_vpn.Text.{is_digit, trim_start}
use entropy_vpn.Uri.Decode.{hex_value}

abbrev hex_or : ℕ → Option ℕ → Option ℕ
hex_or high none = none
hex_or high (some low) = some (high * 16 + low)

abbrev hex_bind : Option ℕ → ℕ → Option ℕ
hex_bind none c = none
hex_bind (some high) c = hex_or high (hex_value c)

-- Four hexadecimal digits at the front; nothing stands for -1.
unfoldable pub read_hex4 : Bytes → Option ℕ
unfolding hex_value
read_hex4 (a ∷ b ∷ c ∷ d ∷ s) = hex_bind (hex_bind (hex_bind (hex_value a) b) c) d
read_hex4 _ = none

-- The bits do not overlap, so `|` is a sum.
unfoldable pub append_utf8 : ℕ → Bytes
append_utf8 cp =
    if cp == 0
    then []
    else if ltb cp 0x80
    then cp ∷ []
    else if ltb cp 0x800
    then (0xC0 + cp / 64) ∷ (0x80 + cp % 64) ∷ []
    else if ltb cp 0x10000
    then (0xE0 + cp / 4096) ∷ (0x80 + cp / 64 % 64) ∷ (0x80 + cp % 64) ∷ []
    else (0xF0 + cp / 262144)
      ∷ (0x80 + cp / 4096 % 64)
      ∷ (0x80 + cp / 64 % 64)
      ∷ (0x80 + cp % 64)
      ∷ []

-- A low surrogate behind a high one, with what is skipped from behind the `u` on.
low_surrogate : ℕ → Option ℕ → ℕ × ℕ
low_surrogate code none = (code, 4)
low_surrogate code (some low) =
    if leb 0xDC00 low && leb low 0xDFFF
    then (0x10000 + (code - 0xD800) * 1024 + (low - 0xDC00), 10)
    else (code, 4)

after_high : ℕ → Bytes → ℕ × ℕ
unfolding low_surrogate
after_high code (b ∷ u ∷ s) =
    if b == 92 && u == b'u' then low_surrogate code (read_hex4 s) else (code, 4)
after_high code _ = (code, 4)

code_point : Bytes → Option ℕ → Bytes × ℕ
unfolding after_high
code_point s none = ([], 0)
code_point s (some code) =
    let (cp, skip) =
      if leb 0xD800 code && leb code 0xDBFF then after_high code (drop 4 s) else (code, 4) in
    (append_utf8 cp, skip)

-- What `\u` appends, and how many characters it takes.
unfoldable pub unicode_escape : Bytes → Bytes × ℕ
unfolding code_point
unicode_escape s = code_point s (read_hex4 s)

abbrev pub put_front : Bytes → Bytes × Bytes → Bytes × Bytes
put_front out (value, rest) = (out ++ value, rest)

-- The loop of `parse_string`, with the text behind it; a backslash at the end reads a zero byte.
unfoldable pub string_body : ℕ → Bytes → Bytes × Bytes
unfolding unicode_escape
string_body skip [] = ([], [])
string_body (suc skip) (c ∷ s) = string_body skip s
string_body zero (c ∷ []) =
    if c == b'"' then ([], []) else if c == 92 then (0 ∷ [], []) else (c ∷ [], [])
string_body zero (c ∷ e ∷ s) =
    let plain = string_body zero (e ∷ s) in
    let escaped = string_body zero s in
    let unicode = string_body ((unicode_escape s).1) s in
    if c == b'"'
    then ([], e ∷ s)
    else if c == 92
    then if e == b'u'
      then put_front ((unicode_escape s).0) unicode
      else put_front (unescape_byte e ∷ []) escaped
    else put_front (c ∷ []) plain

abbrev pub invalid_json : Bytes
invalid_json = codes "Invalid JSON."

-- `peek`
abbrev pub peek : Bytes → ℕ
peek [] = 0
peek (c ∷ s) = c

-- `expect`
unfoldable pub expect : ℕ → Bytes → Result Bytes
expect c s = if peek s == c then ok (drop 1 s) else err invalid_json

unfoldable pub parse_string : Bytes → Result (Bytes × Bytes)
unfolding expect string_body
parse_string s = do rest ← expect b'"' s; ok (string_body 0 rest)

-- The characters that may stand in a number.
abbrev pub is_numeric : ℕ → Bool
is_numeric c = is_digit c || c == b'-' || c == b'+' || c == b'.' || c == b'e' || c == b'E'

abbrev cons_run : ℕ → Bytes × Bytes → Bytes × Bytes
cons_run c (run, rest) = (c ∷ run, rest)

unfoldable pub numeric_run : Bytes → Bytes × Bytes
numeric_run [] = ([], [])
numeric_run (c ∷ s) =
    let more = numeric_run s in if is_numeric c then cons_run c more else ([], c ∷ s)

-- What each parser returns: a value with the text behind it.
abbrev pub Parsed : Type 0 → Type 0
Parsed A = Result (A × Bytes)

module _ {N : Type 0} (D : Doubles N) where
  unfoldable pub parse_number : Bytes → Json N × Bytes
  unfolding numeric_run
  parse_number s = let (run, rest) = numeric_run s in (number (D.strtod run), rest)

  -- Behind the brace, with the loop for the members.
  unfoldable pub parse_object : (Bytes → Parsed (Members N)) → Bytes → Parsed (Json N)
  parse_object members s =
      if peek (trim_start s) == b'}'
      then ok (object no_members, drop 1 (trim_start s))
      else do (ms, rest) ← members s; ok (object ms, rest)

  unfoldable pub parse_array : (Bytes → Parsed (Items N)) → Bytes → Parsed (Json N)
  parse_array items s =
      if peek (trim_start s) == b']'
      then ok (array no_items, drop 1 (trim_start s))
      else do (vs, rest) ← items s; ok (array vs, rest)

  -- `parse_value` behind the white space, with the loops for members and items.
  unfoldable pub value_at :
      (Bytes → Parsed (Members N)) → (Bytes → Parsed (Items N)) → Bytes → Parsed (Json N)
  unfolding parse_number parse_object parse_array
  value_at members items s =
      if peek s == b'{'
      then parse_object members (drop 1 s)
      else if peek s == b'['
      then parse_array items (drop 1 s)
      else if peek s == b'"'
      then (do (text, rest) ← parse_string s; ok (string text, rest))
      else if peek s == b't'
      then ok (bool true, drop 4 s)
      else if peek s == b'f'
      then ok (bool false, drop 5 s)
      else if peek s == b'n'
      then ok (null, drop 4 s)
      else ok (parse_number s)

  -- Behind a member, with the loop for the others.
  unfoldable pub after_member :
      (Bytes → Parsed (Members N)) → Members N → Bytes → Parsed (Members N)
  after_member more ms s =
      if peek s == b'}'
      then ok (ms, drop 1 s)
      else if peek s == b','
      then more (drop 1 s)
      else err (codes "Invalid JSON object.")

  -- One round of the loop of `parse_object`.
  unfoldable pub member_at :
      (Bytes → Parsed (Json N))
      → (Members N → Bytes → Parsed (Members N))
      → Members N
      → Bytes
      → Parsed (Members N)
  unfolding after_member
  member_at value more ms s = do
    (key, behind_key) ← parse_string (trim_start s)
    colon ← expect b':' (trim_start behind_key)
    (v, rest) ← value colon
    after_member (more (assign_member key v ms)) (assign_member key v ms) (trim_start rest)

  unfoldable pub after_item : (Bytes → Parsed (Items N)) → Json N → Bytes → Parsed (Items N)
  after_item more v s =
      if peek s == b']'
      then ok (item v no_items, drop 1 s)
      else if peek s == b','
      then (do (vs, rest) ← more (drop 1 s); ok (item v vs, rest))
      else err (codes "Invalid JSON array.")

  -- One round of the loop of `parse_array`.
  unfoldable pub item_at :
      (Bytes → Parsed (Json N)) → (Bytes → Parsed (Items N)) → Bytes → Parsed (Items N)
  unfolding after_item
  item_at value more s = do (v, rest) ← value s; after_item more v (trim_start rest)

abbrev pub out_of_fuel : Bytes
out_of_fuel = []

-- A round of a loop and a nested value cost a unit of fuel each.
unfoldable mutual
  unfolding value_at member_at item_at

  pub parse_value : {N : Type 0} → Doubles N → ℕ → Bytes → Parsed (Json N)
  parse_value D zero s = err out_of_fuel
  parse_value D (suc f) s =
      value_at D (parse_members D f no_members) (parse_items D f) (trim_start s)

  pub parse_members : {N : Type 0} → Doubles N → ℕ → Members N → Bytes → Parsed (Members N)
  parse_members D zero ms s = err out_of_fuel
  parse_members D (suc f) ms s = member_at D (parse_value D f) (parse_members D f) ms s

  pub parse_items : {N : Type 0} → Doubles N → ℕ → Bytes → Parsed (Items N)
  parse_items D zero s = err out_of_fuel
  parse_items D (suc f) s = item_at D (parse_value D f) (parse_items D f) s

-- `parse`; what follows the value is not looked at.
unfoldable pub parse : {N : Type 0} → Doubles N → Bytes → Result (Json N)
unfolding parse_value
parse D text = do (v, rest) ← parse_value D (2 * length text + 1) text; ok v
