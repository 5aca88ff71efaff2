-- ===== src/Share/Extract/Clean.antt =====
-- The links that are found.
use entropy_vpn.Base.{
  ℕ, zero, suc, ◌≤◌, ◌&&◌, false, List, [], ◌∷◌, Option, none, some, Bytes, ◌≡◌, refl, arith, All,
  length, is_empty, Bool-cases, inl, inr,
}
use entropy_vpn.Share.Extract.{
  is_trailing_share_link_separator, is_line_break, keep_last, pop_last, drop_round, drop_separators,
  first_line, trim_share_link, candidate, links_at, link_starts, extract_share_links,
}
use entropy_vpn.Text.Trim.{IsTrimmed, trim-IsTrimmed, length-trim}
use entropy_vpn.Text.{is_space, trim_start, trim_end, trim, before_first, without_utf8_bom_markers}

-- The last byte is no separator.
abbrev pub EndsClean : Option (Bytes × ℕ) → Type 0
EndsClean none = Unit
EndsClean (some (s, c)) = is_trailing_share_link_separator c ≡ false

abbrev pub IsOneLine : Bytes → Type 0
IsOneLine = All (λ c. is_line_break c ≡ false)

-- One line, with no white space at an end, and no separator behind it.
abbrev pub IsClean : Bytes → Type 0
IsClean s = IsOneLine s × IsTrimmed s × EndsClean (pop_last s)

trim_start-IsOneLine : (s : Bytes) → IsOneLine s → IsOneLine (trim_start s)
unfolding trim_start
trim_start-IsOneLine [] h = tt
trim_start-IsOneLine (c ∷ s) h = elim (Bool-cases (is_space c)) [
  | inl space ↦ rw space (trim_start-IsOneLine s h.1)
  | inr other ↦ rw other h
]

trim_end-IsOneLine : (s : Bytes) → IsOneLine s → IsOneLine (trim_end s)
unfolding trim_end
trim_end-IsOneLine [] h = tt
trim_end-IsOneLine (c ∷ s) h = elim (Bool-cases (is_space c && is_empty (trim_end s))) [
  | inl end ↦ rw end tt
  | inr more ↦ rw more (h.0, trim_end-IsOneLine s h.1)
]

trim-IsOneLine : (s : Bytes) → IsOneLine s → IsOneLine (trim s)
unfolding trim
trim-IsOneLine s h = trim_end-IsOneLine (trim_start s) (trim_start-IsOneLine s h)

before_first-IsOneLine : (s : Bytes) → IsOneLine (before_first is_line_break s)
unfolding before_first
before_first-IsOneLine [] = tt
before_first-IsOneLine (c ∷ s) = elim (Bool-cases (is_line_break c)) [
  | inl end ↦ rw end tt
  | inr more ↦ rw more (more, before_first-IsOneLine s)
]

-- What is left when the last byte goes.
abbrev IsShorter : Bytes → Option (Bytes × ℕ) → Type 0
IsShorter s none = s ≡ []
IsShorter s (some (rest, c)) = (length s ≡ suc (length rest)) × (IsOneLine s → IsOneLine rest)

keep_last-IsShorter :
    (c : ℕ) (s : Bytes) (last : Option (Bytes × ℕ))
    → IsShorter s last
    → IsShorter (c ∷ s) (keep_last c last)
keep_last-IsShorter c s none e = rw e (refl, λ h. tt)
keep_last-IsShorter c s (some (rest, d)) (e, one) = (omega arith, λ h. (h.0, one h.1))

pop_last-IsShorter : (s : Bytes) → IsShorter s (pop_last s)
unfolding pop_last
pop_last-IsShorter [] = refl
pop_last-IsShorter (c ∷ s) = keep_last-IsShorter c s (pop_last s) (pop_last-IsShorter s)

drop_round-IsClean :
    (s : Bytes) (later : Bytes → Bytes) (last : Option (Bytes × ℕ))
    → pop_last s ≡ last
    → IsOneLine s
    → IsTrimmed s
    → ((rest : Bytes) → length s ≡ suc (length rest) → IsOneLine rest → IsClean (later (trim rest)))
    → IsClean (drop_round s later last)
unfolding drop_round
drop_round-IsClean s later none e one t h = (one, t, rw e tt)
drop_round-IsClean s later (some (rest, c)) e one t h =
    let shorter = rw e at (pop_last-IsShorter s) in
    elim (Bool-cases (is_trailing_share_link_separator c)) [
      | inl trailing ↦ rw trailing (h rest shorter.0 (shorter.1 one))
      | inr clean ↦ rw clean (one, t, rw e clean)
    ]

drop_separators-IsClean :
    (fuel : ℕ) (s : Bytes)
    → length s ≤ fuel
    → IsOneLine s
    → IsTrimmed s
    → IsClean (drop_separators fuel s)
unfolding drop_separators
drop_separators-IsClean zero [] f one t = (one, t, unfold pop_last in tt)
drop_separators-IsClean zero (c ∷ s) f one t = absurd (omega arith)
drop_separators-IsClean (suc fuel) s f one t =
    drop_round-IsClean s (drop_separators fuel) (pop_last s) refl one t (λ rest shorter one'.
      drop_separators-IsClean fuel (trim rest) (omega (arith, length-trim rest))
        (trim-IsOneLine rest one') (trim-IsTrimmed rest))

trim_share_link-IsClean : (value : Bytes) → IsClean (trim_share_link value)
unfolding trim_share_link first_line
trim_share_link-IsClean value =
    drop_separators-IsClean _ _ (omega arith)
      (trim-IsOneLine _ (before_first-IsOneLine (trim value))) (trim-IsTrimmed _)

-- A link that can be parsed.
abbrev pub IsCleanLink : Bytes → Type 0
IsCleanLink s = (is_empty s ≡ false) × IsClean s

links_at-IsCleanLink : (text : Bytes) (starts : List ℕ) → All IsCleanLink (links_at text starts)
unfolding links_at
links_at-IsCleanLink text [] = tt
links_at-IsCleanLink text (start ∷ starts) =
    let link = trim_share_link (candidate text start starts) in
    elim (Bool-cases (is_empty link)) [
      | inl none_left ↦ rw none_left (links_at-IsCleanLink text starts)
      | inr filled ↦ rw filled (
        (filled, trim_share_link-IsClean (candidate text start starts)),
        links_at-IsCleanLink text starts,
      )
    ]

-- Whatever text is given, each link that extract_share_links returns is not empty, is one line,
-- has no white space at an end, and does not end with a character that is taken for a separator
-- behind a link.
pub extract_share_links-IsCleanLink : (raw : Bytes) → All IsCleanLink (extract_share_links raw)
unfolding extract_share_links
extract_share_links-IsCleanLink raw =
    links_at-IsCleanLink _ (link_starts 0 [] 0 (without_utf8_bom_markers raw))
