-- ===== src/Text.antt =====
-- Strings as native/share_link_parser.cpp handles them: trimming, case, searching and splitting.
-- The code keeps positions into a string; here a search returns the texts before and behind the
-- match, which is what `find` with `substr` yields.
pub mod Trim
pub mod Search
pub mod Split
use entropy_vpn.Base.{
  ℕ, zero, suc, ◌+◌, Bool, true, false, not, ◌&&◌, ◌||◌, List, [], ◌∷◌, ◌++◌, map, Option, none,
  some, Bytes, ◌==◌, leb, if◌then◌else◌, is_empty,
}

-- `std::isspace`, `std::isdigit`, `std::isalnum` in the C locale.
abbrev pub is_space : ℕ → Bool
is_space c = c == 32 || leb 9 c && leb c 13

abbrev pub is_digit : ℕ → Bool
is_digit c = leb b'0' c && leb c b'9'

abbrev pub is_upper : ℕ → Bool
is_upper c = leb b'A' c && leb c b'Z'

abbrev pub is_alnum : ℕ → Bool
is_alnum c = is_digit c || is_upper c || leb b'a' c && leb c b'z'

-- `std::tolower` in the C locale.
pub to_lower : ℕ → ℕ
to_lower c = if is_upper c then c + 32 else c

unfoldable pub lower : Bytes → Bytes
unfolding to_lower
lower = map to_lower

-- The loop that moves `start` forward.
unfoldable pub trim_start : Bytes → Bytes
trim_start [] = []
trim_start (c ∷ s) = let rest = trim_start s in if is_space c then rest else c ∷ s

-- The loop that moves `end` back.
unfoldable pub trim_end : Bytes → Bytes
trim_end [] = []
trim_end (c ∷ s) = let rest = trim_end s in if is_space c && is_empty rest then [] else c ∷ rest

unfoldable pub trim : Bytes → Bytes
unfolding trim_start trim_end
trim s = trim_end (trim_start s)

-- The loops of `remove_if` with `isspace`.
unfoldable pub remove_spaces : Bytes → Bytes
remove_spaces [] = []
remove_spaces (c ∷ s) = let rest = remove_spaces s in if is_space c then rest else c ∷ rest

-- One more byte in front of what was found behind it.
abbrev pub cons_first : ℕ → Option (Bytes × Bytes) → Option (Bytes × Bytes)
cons_first c none = none
cons_first c (some (p, q)) = some (c ∷ p, q)

-- `find` of one byte, with what `substr` gives before and behind it.
unfoldable pub cut_first : ℕ → Bytes → Option (Bytes × Bytes)
cut_first b [] = none
cut_first b (c ∷ s) = let rest = cut_first b s in if c == b then some ([], s) else cons_first c rest

abbrev pub or_here : Bool → Bytes → ℕ → Option (Bytes × Bytes) → Option (Bytes × Bytes)
or_here here s c (some (p, q)) = some (c ∷ p, q)
or_here true s c none = some ([], s)
or_here false s c none = none

-- `rfind` of one byte.
unfoldable pub cut_last : ℕ → Bytes → Option (Bytes × Bytes)
cut_last b [] = none
cut_last b (c ∷ s) = or_here (c == b) s c (cut_last b s)

-- The text behind a prefix, if it is one.
unfoldable pub strip_prefix : Bytes → Bytes → Option Bytes
strip_prefix [] s = some s
strip_prefix (b ∷ p) [] = none
strip_prefix (b ∷ p) (c ∷ s) = let rest = strip_prefix p s in if b == c then rest else none

abbrev pub found_or : Option Bytes → Option (Bytes × Bytes) → Option (Bytes × Bytes)
found_or (some rest) later = some ([], rest)
found_or none later = later

-- `find` of a text.
unfoldable pub cut_seq : Bytes → Bytes → Option (Bytes × Bytes)
unfolding strip_prefix
cut_seq n [] = found_or (strip_prefix n []) none
cut_seq n (c ∷ s) = found_or (strip_prefix n (c ∷ s)) (cons_first c (cut_seq n s))

-- `find_first_of`, from the match on; nothing where there is no match.
unfoldable pub from_first : (ℕ → Bool) → Bytes → Bytes
from_first p [] = []
from_first p (c ∷ s) = let rest = from_first p s in if p c then c ∷ s else rest

-- The text before the first such byte, or all of it.
unfoldable pub before_first : (ℕ → Bool) → Bytes → Bytes
before_first p [] = []
before_first p (c ∷ s) = let rest = before_first p s in if p c then [] else c ∷ rest

abbrev pub contains : ℕ → Bytes → Bool
contains b [] = false
contains b (c ∷ s) = c == b || contains b s

abbrev pub cons_piece : ℕ → List Bytes → List Bytes
cons_piece c [] = (c ∷ []) ∷ []
cons_piece c (p ∷ ps) = (c ∷ p) ∷ ps

-- The loop over `start` and `next` that cuts a text at each separator; it sees at least one piece.
unfoldable pub pieces : (ℕ → Bool) → Bytes → List Bytes
pieces p [] = [] ∷ []
pieces p (c ∷ s) = let rest = pieces p s in if p c then [] ∷ rest else cons_piece c rest

-- Each piece is trimmed, and kept if something is left.
pub keep_trimmed : List Bytes → List Bytes
unfolding trim
keep_trimmed [] = []
keep_trimmed (p ∷ ps) =
    let v = trim p in let rest = keep_trimmed ps in if is_empty v then rest else v ∷ rest

unfoldable pub split_list : Bytes → ℕ → List Bytes
unfolding keep_trimmed pieces
split_list raw separator = keep_trimmed (pieces (λ c. c == separator) raw)

abbrev is_line_end : ℕ → Bool
is_line_end c = c == 13 || c == 10

abbrev first_line : List Bytes → Bytes
first_line [] = []
first_line (l ∷ ls) = l

-- The first line that is not blank, trimmed; empty if there is none.
unfoldable pub first_non_empty_line : Bytes → Bytes
unfolding keep_trimmed pieces
first_non_empty_line raw = first_line (keep_trimmed (pieces is_line_end raw))

abbrev bom : Bytes
bom = 0xEF ∷ 0xBB ∷ 0xBF ∷ []

abbrev pub is_some {ℓ} : {A : Type ℓ} → Option A → Bool
is_some none = false
is_some (some a) = true

-- `find` and `erase` of the marker go left to right; the number counts the bytes still to drop.
erase_markers : ℕ → Bytes → Bytes
erase_markers k [] = []
erase_markers (suc k) (c ∷ s) = erase_markers k s
erase_markers zero (c ∷ s) =
    let skip = erase_markers 2 s in
    let keep = c ∷ erase_markers 0 s in if is_some (strip_prefix bom (c ∷ s)) then skip else keep

unfoldable pub without_utf8_bom_markers : Bytes → Bytes
unfolding erase_markers strip_prefix
without_utf8_bom_markers = erase_markers 0
