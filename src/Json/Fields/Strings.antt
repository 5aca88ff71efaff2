-- ===== src/Json/Fields/Strings.antt =====
-- Reading back a written string.
use entropy_vpn.Base.{
  ℕ, ◌<◌, ◌||◌, [], ◌∷◌, ◌++◌, append_assoc, Bytes, All, ◌==◌, ◌≡◌, ◌≢◌, ◌⊎◌, inl, inr, refl, ◌∙◌,
  ap, arith, Bool-cases, ltb,
}
use entropy_vpn.Json.Escape.{escape_byte, json_escape, unescape_byte}
use entropy_vpn.Json.Fields.{quote, backslash, push_byte, read_string}

-- A byte that has a short escape, or needs none. The other control characters are written as
-- `\u00XX`, which `json_string_value` does not read.
abbrev pub IsShort : ℕ → Type 0
IsShort c = c < 32 → (c ≡ 8) ⊎ (c ≡ 9) ⊎ (c ≡ 10) ⊎ (c ≡ 12) ⊎ (c ≡ 13)

read_string_end : (s : Bytes) → read_string (quote ∷ s) ≡ ([], s)
unfolding read_string
read_string_end [] = refl
read_string_end (c ∷ s) = refl

read_string_plain :
    (c : ℕ) (s : Bytes)
    → s ≢ []
    → c ≢ quote
    → c ≢ backslash
    → read_string (c ∷ s) ≡ push_byte c (read_string s)
read_string_plain c [] ne q b = absurd (ne refl)
read_string_plain c (e ∷ s) ne q b = unfold read_string in ground arith

read_string_escape :
    (e : ℕ) (s : Bytes)
    → read_string (backslash ∷ e ∷ s) ≡ push_byte (unescape_byte e) (read_string s)
unfolding read_string
read_string_escape e s = refl

append-ne-nil : (s : Bytes) (c : ℕ) (t : Bytes) → (s ++ c ∷ t) ≢ []
append-ne-nil [] c t e = cc
append-ne-nil (d ∷ s) c t e = cc

-- The byte behind the backslash.
abbrev second : Bytes → ℕ
second (a ∷ b ∷ s) = b
second _ = 0

-- A byte that needs no escape, or a short one.
escape_byte_short :
    (c : ℕ)
    → IsShort c
    → ((escape_byte c ≡ c ∷ []) × (c ≢ quote) × (c ≢ backslash))
      ⊎ ((e : ℕ) × (escape_byte c ≡ backslash ∷ e ∷ []) × (unescape_byte e ≡ c))
unfolding escape_byte unescape_byte
escape_byte_short c h = elim (Bool-cases (c == quote || c == backslash || ltb c 32)) [
  | inl special ↦ inr (second (escape_byte c), ground arith, ground arith)
  | inr ordinary ↦ inl (ground arith, ground arith, ground arith)
]

read_string-escape_byte :
    (c : ℕ) (s : Bytes)
    → IsShort c
    → s ≢ []
    → read_string (escape_byte c ++ s) ≡ push_byte c (read_string s)
read_string-escape_byte c s h ne = elim (escape_byte_short c h) [
  | inl (e, q, b) ↦ rw e (read_string_plain c s ne q b)
  | inr (d, e, back) ↦ rw e (read_string_escape d s ∙ rw back)
]

-- A written string is read back, with what follows its closing quote.
pub read_string-json_escape :
    (v s : Bytes) → All IsShort v → read_string (json_escape v ++ quote ∷ s) ≡ (v, s)
unfolding json_escape
read_string-json_escape [] s h = read_string_end s
read_string-json_escape (c ∷ v) s h =
    ap read_string (append_assoc (escape_byte c) (json_escape v) (quote ∷ s))
    ∙ read_string-escape_byte c (json_escape v ++ quote ∷ s) h.0
        (append-ne-nil (json_escape v) quote s)
    ∙ ap (push_byte c) (read_string-json_escape v s h.1)
