-- ===== src/Share/Extract.antt =====
-- Finding links in a text: `extract_share_links` and `parse_share_links_json` of
-- native/share_link_parser.cpp.
pub mod Clean
pub mod Output
use entropy_vpn.Base.{
  ℕ, zero, suc, ◌-◌, ◌≤◌, Bool, true, false, ◌||◌, ◌&&◌, List, [], ◌∷◌, ◌++◌, Option, none, some,
  Bytes, codes, ◌==◌, leb, if◌then◌else◌, is_empty, length, drop, bytes_eq, not,
}
use entropy_vpn.Profile.{Profile, to_json}
use entropy_vpn.Result.{Result, ok, err}
use entropy_vpn.Share.Dispatch.{parse_profile}
use entropy_vpn.Share.Words.{is}
use entropy_vpn.Text.{
  is_alnum, lower, trim, before_first, strip_prefix, is_some, without_utf8_bom_markers,
}

unfoldable pub is_share_link_scheme : Bytes → Bool
is_share_link_scheme scheme =
    let s = lower scheme in
    is s "hysteria2"
    || is s "hysteria"
    || is s "vless"
    || is s "vmess"
    || is s "trojan"
    || is s "hy2"
    || is s "ss"

-- The bytes that may stand in front of a link.
abbrev is_boundary : ℕ → Bool
is_boundary c =
    leb c 32
    || c == 0x22
    || c == 0x27
    || c == 0x28
    || c == 0x2c
    || c == 0x3b
    || c == 0x3c
    || c == 0x3e
    || c == 0x5b
    || c == 0x60
    || c == 0x7b
    || c == 0x7c

-- The text in front of the link, read backwards.
unfoldable pub is_likely_share_link_boundary : Bytes → Bool
is_likely_share_link_boundary [] = true
is_likely_share_link_boundary (c ∷ before) = is_boundary c

abbrev pub is_trailing_share_link_separator : ℕ → Bool
is_trailing_share_link_separator c =
    c == 0x22
    || c == 0x27
    || c == 0x29
    || c == 0x2c
    || c == 0x2e
    || c == 0x3b
    || c == 0x3e
    || c == 0x5d
    || c == 0x60
    || c == 0x7c
    || c == 0x7d

abbrev pub is_line_break : ℕ → Bool
is_line_break c = c == 13 || c == 10

abbrev pub keep_last : ℕ → Option (Bytes × ℕ) → Option (Bytes × ℕ)
keep_last c none = some ([], c)
keep_last c (some (s, d)) = some (c ∷ s, d)

-- `back` and `pop_back`
unfoldable pub pop_last : Bytes → Option (Bytes × ℕ)
pop_last [] = none
pop_last (c ∷ s) = keep_last c (pop_last s)

-- One round of the loop, with what the rounds behind it make of a text.
drop_round : Bytes → (Bytes → Bytes) → Option (Bytes × ℕ) → Bytes
drop_round value later none = value
drop_round value later (some (rest, c)) =
    let dropped = later (trim rest) in if is_trailing_share_link_separator c then dropped else value

-- The `while` loop; each round takes a byte off.
unfoldable pub drop_separators : ℕ → Bytes → Bytes
unfolding pop_last drop_round
drop_separators zero value = value
drop_separators (suc fuel) value = drop_round value (drop_separators fuel) (pop_last value)

-- A text without a line break is trimmed twice, which changes nothing.
first_line : Bytes → Bytes
first_line value = trim (before_first is_line_break (trim value))

unfoldable pub trim_share_link : Bytes → Bytes
unfolding first_line drop_separators
trim_share_link value = let line = first_line value in drop_separators (length line) line

-- The scheme in front of the separator, read backwards, and what is in front of it.
scheme_before : Bytes → Bytes → Bytes × Bytes
scheme_before [] scheme = (scheme, [])
scheme_before (c ∷ before) scheme =
    let more = scheme_before before (c ∷ scheme) in
    if is_alnum c then more else (scheme, c ∷ before)

add_start : ℕ → Bytes × Bytes → List ℕ → List ℕ
add_start separator (scheme, before) later =
    if is_share_link_scheme scheme && is_likely_share_link_boundary before
    then (separator - length scheme) ∷ later
    else later

-- The places where links start. The position is `at`, with the text in front of it read
-- backwards; `skip` bytes belong to the separator that was found last.
unfoldable pub link_starts : ℕ → Bytes → ℕ → Bytes → List ℕ
unfolding scheme_before add_start
link_starts at before skip [] = []
link_starts at before (suc skip) (c ∷ s) = link_starts (suc at) (c ∷ before) skip s
link_starts at before zero (c ∷ s) =
    let found = add_start at (scheme_before before []) (link_starts (suc at) (c ∷ before) 2 s) in
    let other = link_starts (suc at) (c ∷ before) 0 s in
    if is_some (strip_prefix (codes "://") (c ∷ s)) then found else other

unfoldable pub take : ℕ → Bytes → Bytes
take zero s = []
take (suc n) [] = []
take (suc n) (c ∷ s) = c ∷ take n s

-- `substr(start, end - start)`, to the next start or to the end.
unfoldable pub candidate : Bytes → ℕ → List ℕ → Bytes
unfolding take
candidate text start [] = drop start text
candidate text start (end ∷ starts) = take (end - start) (drop start text)

unfoldable pub links_at : Bytes → List ℕ → List Bytes
unfolding trim_share_link candidate
links_at text [] = []
links_at text (start ∷ starts) =
    let link = trim_share_link (candidate text start starts) in
    let later = links_at text starts in if is_empty link then later else link ∷ later

unfoldable pub extract_share_links : Bytes → List Bytes
unfolding links_at link_starts
extract_share_links raw =
    let normalized = without_utf8_bom_markers raw in
    links_at normalized (link_starts 0 [] 0 normalized)

abbrev pub seen_in : Bytes → List Bytes → Bool
seen_in link [] = false
seen_in link (other ∷ seen) = bytes_eq other link || seen_in link seen

abbrev pub profile_text : Result Profile → List Bytes → List Bytes
profile_text (ok p) later = to_json p ∷ later
profile_text (err m) later = later

-- One text for each link that is new and that is parsed.
unfoldable pub profile_texts : List Bytes → List Bytes → List Bytes
profile_texts seen [] = []
profile_texts seen (link ∷ links) =
    let again = profile_texts seen links in
    let new = profile_text (parse_profile link) (profile_texts (link ∷ seen) links) in
    if seen_in link seen then again else new

unfoldable pub more_texts : List Bytes → Bytes
more_texts [] = []
more_texts (t ∷ texts) = b',' ∷ (t ++ more_texts texts)

unfoldable pub array_text : List Bytes → Bytes
unfolding more_texts
array_text [] = codes "[]"
array_text (t ∷ texts) = b'[' ∷ (t ++ more_texts texts ++ codes "]")

unfoldable pub parse_share_links_json : Bytes → Bytes
parse_share_links_json raw = array_text (profile_texts [] (extract_share_links raw))
