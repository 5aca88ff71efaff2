-- ===== src/Config/Matchers/Paths.antt =====
-- Paths and their parts, and escaped texts.
use entropy_vpn.Base.{
  ℕ, Bool, true, false, [], ◌∷◌, ◌++◌, Option, none, some, Bytes, ◌==◌, leb, ◌&&◌, ◌||◌, ◌∙◌, ◌≡◌,
  refl, ap, arith, All, Bool-cases, Option-cases, inl, inr, ◌⊎◌, if◌then◌else◌,
}
use entropy_vpn.Config.Matchers.{
  cut_last_of, is_slash, path_basename, path_dirname, is_special, regex_escape,
}
use entropy_vpn.Text.{or_here}

-- The split at the last such byte: there is none, or there is none behind it.
abbrev pub IsLastCut : (ℕ → Bool) → Bytes → Option (Bytes × Bytes) → Type 0
IsLastCut p s none = All (λ c. p c ≡ false) s
IsLastCut p s (some (before, after)) =
    (c : ℕ) × (p c ≡ true) × (s ≡ before ++ c ∷ after) × All (λ c. p c ≡ false) after

or_here-IsLastCut :
    (p : ℕ → Bool) (c : ℕ) (s : Bytes) (later : Option (Bytes × Bytes))
    → IsLastCut p s later
    → IsLastCut p (c ∷ s) (or_here (p c) s c later)
or_here-IsLastCut p c s none h = elim (Bool-cases (p c)) [
  | inl hit ↦ rw hit (c, hit, refl, h)
  | inr miss ↦ rw miss (miss, h)
]
or_here-IsLastCut p c s (some (before, after)) (d, hit, e, h) = (d, hit, ap (◌∷◌ c) e, h)

cut_last_of-IsLastCut : (p : ℕ → Bool) (s : Bytes) → IsLastCut p s (cut_last_of p s)
unfolding cut_last_of
cut_last_of-IsLastCut p [] = tt
cut_last_of-IsLastCut p (c ∷ s) =
    or_here-IsLastCut p c s (cut_last_of p s) (cut_last_of-IsLastCut p s)

-- The two parts of a path, as the two functions give them.
abbrev pub IsSplit : Bytes → Bytes → Bytes → Type 0
IsSplit path dir base =
    ((dir ≡ []) × (base ≡ path)) ⊎ ((c : ℕ) × (is_slash c ≡ true) × (path ≡ dir ++ c ∷ base))

-- Either the directory of a path is empty and the base name is the whole path, or the path is the
-- directory, a slash or backslash, and the base name; in both cases the base name holds no slash
-- or backslash.
pub path_dirname-path_basename :
    (path : Bytes)
    → IsSplit path (path_dirname path) (path_basename path)
      × All (λ c. is_slash c ≡ false) (path_basename path)
unfolding path_dirname path_basename
path_dirname-path_basename path = elim (Option-cases (cut_last_of is_slash path)) [
  | inl e ↦ rw e (inl (refl, refl), rw e at (cut_last_of-IsLastCut is_slash path))
  | inr (cut, e) ↦ rw e (parts cut (rw e at (cut_last_of-IsLastCut is_slash path)))
]
  where
    parts :
        (cut : Bytes × Bytes)
        → IsLastCut is_slash path (some cut)
        → IsSplit path cut.0 cut.1 × All (λ c. is_slash c ≡ false) cut.1
    parts (before, after) (c, hit, e, h) = (inr (c, hit, e), h)

-- A character that a regular expression does not take for itself.
abbrev is_meta : ℕ → Bool
is_meta c =
    c == b'\\'
    || c == b'.'
    || c == b'^'
    || c == b'$'
    || c == b'|'
    || c == b'?'
    || c == b'*'
    || c == b'+'
    || c == b'('
    || c == b')'
    || c == b'['
    || c == b']'
    || c == b'{'
    || c == b'}'

-- A letter or a digit, which a backslash gives another meaning.
abbrev is_word : ℕ → Bool
is_word c = (leb b'a' c && leb c b'z') || (leb b'A' c && leb c b'Z') || (leb b'0' c && leb c b'9')

abbrev put : ℕ → Option Bytes → Option Bytes
put c none = none
put c (some s) = some (c ∷ s)

-- What a regular expression spells, if every part of it stands for one character: a character that
-- is not special, or a backslash and a character that is no letter and no digit.
unfoldable pub literal_of : Bytes → Option Bytes
literal_of [] = some []
literal_of (c ∷ []) = if is_meta c then none else some (c ∷ [])
literal_of (c ∷ d ∷ s) =
    let plain = literal_of (d ∷ s) in
    let escaped = literal_of s in
    if c == b'\\'
    then if is_word d then none else put d escaped
    else if is_meta c
    then none
    else put c plain

literal_of_plain :
    (c : ℕ) (s : Bytes) → is_meta c ≡ false → literal_of (c ∷ s) ≡ put c (literal_of s)
unfolding literal_of
literal_of_plain c [] h = rw h refl
literal_of_plain c (d ∷ s) h =
    let other : (c == b'\\') ≡ false = ground arith in rw h (rw other refl)

literal_of_escaped :
    (c : ℕ) (s : Bytes) → is_word c ≡ false → literal_of (b'\\' ∷ c ∷ s) ≡ put c (literal_of s)
unfolding literal_of
literal_of_escaped c s h = rw h refl

special-is_word : (c : ℕ) → is_special c ≡ true → is_word c ≡ false
special-is_word c h = ground arith

special-is_meta : (c : ℕ) → is_special c ≡ false → is_meta c ≡ false
special-is_meta c h = ground arith

-- Read as a regular expression, a text that regex_escape has escaped is a row of single
-- characters, each standing for itself: no special character is left bare, and a backslash stands
-- only in front of a character that is no letter and no digit. What these characters spell is the
-- original text.
pub literal_of-regex_escape : (value : Bytes) → literal_of (regex_escape value) ≡ some value
unfolding regex_escape
literal_of-regex_escape [] = unfold literal_of in refl
literal_of-regex_escape (c ∷ value) = elim (Bool-cases (is_special c)) [
  | inl special ↦ rw special (
      literal_of_escaped c (regex_escape value) (special-is_word c special)
      ∙ ap (put c) (literal_of-regex_escape value))
  | inr plain ↦ rw plain (
      literal_of_plain c (regex_escape value) (special-is_meta c plain)
      ∙ ap (put c) (literal_of-regex_escape value))
]
