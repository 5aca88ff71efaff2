-- ===== src/Json/Parser/Strings.antt =====
-- Strings: what `parse_string` makes of a written one, and how far it reads.
use entropy_vpn.Base.{
  ℕ, zero, suc, ◌/◌, ◌%◌, ◌<◌, ◌≤◌, ◌||◌, [], ◌∷◌, ◌++◌, append_assoc, some, Bytes, codes, All,
  ◌==◌, ◌≡◌, ◌≢◌, ◌⊎◌, inl, inr, refl, ◌∙◌, ap, arith, Bool-cases, ltb, length,
}
use entropy_vpn.Json.Escape.{k_hex, escape_byte, json_escape, unescape_byte}
use entropy_vpn.Json.Parser.{
  read_hex4, append_utf8, code_point, unicode_escape, put_front, string_body, expect, parse_string,
}
use entropy_vpn.Json.Writer.{quoted}
use entropy_vpn.Result.{ok}
use entropy_vpn.Uri.Decode.{hex_value}

hex_value-k_hex : (d : ℕ) → d < 16 → hex_value (k_hex d) ≡ some d
unfolding hex_value k_hex
hex_value-k_hex d h = ground arith

read_hex4-k_hex :
    (c : ℕ) (s : Bytes)
    → c < 256
    → read_hex4 (b'0' ∷ b'0' ∷ k_hex (c / 16 % 16) ∷ k_hex (c % 16) ∷ s) ≡ some c
unfolding read_hex4
read_hex4-k_hex c s h =
    rw (hex_value-k_hex (c / 16 % 16) (omega arith), hex_value-k_hex (c % 16) (omega arith))
      (ap some (omega arith))

code_point_low : (c : ℕ) (s : Bytes) → 0 < c → c < 128 → code_point s (some c) ≡ (c ∷ [], 4)
unfolding code_point append_utf8
code_point_low c s p h = ground arith

unicode_escape-k_hex :
    (c : ℕ) (s : Bytes)
    → 0 < c
    → c < 128
    → unicode_escape (b'0' ∷ b'0' ∷ k_hex (c / 16 % 16) ∷ k_hex (c % 16) ∷ s) ≡ (c ∷ [], 4)
unfolding unicode_escape
unicode_escape-k_hex c s p h =
    rw (read_hex4-k_hex c s (omega arith))
      (code_point_low c (b'0' ∷ b'0' ∷ k_hex (c / 16 % 16) ∷ k_hex (c % 16) ∷ s) p h)

-- Six characters for a control character that has no short escape.
string_body_unicode :
    (c : ℕ) (s : Bytes)
    → 0 < c
    → c < 128
    → string_body 0 (codes "\\u00" ++ k_hex (c / 16 % 16) ∷ k_hex (c % 16) ∷ s)
      ≡ put_front (c ∷ []) (string_body 0 s)
string_body_unicode c s p h = unfold string_body in rw (unicode_escape-k_hex c s p h) refl

string_body_plain :
    (c : ℕ) (s : Bytes)
    → s ≢ []
    → c ≢ b'"'
    → c ≢ 92
    → string_body 0 (c ∷ s) ≡ put_front (c ∷ []) (string_body 0 s)
string_body_plain c [] ne q b = absurd (ne refl)
string_body_plain c (e ∷ s) ne q b = unfold string_body in ground arith

string_body_escape :
    (e : ℕ) (s : Bytes)
    → e ≢ b'u'
    → string_body 0 (92 ∷ e ∷ s) ≡ put_front (unescape_byte e ∷ []) (string_body 0 s)
string_body_escape e s h = unfold string_body in ground arith

-- The three ways in which a byte is written.
abbrev IsWritten : ℕ → Type 0
IsWritten c =
    ((escape_byte c ≡ c ∷ []) × (c ≢ b'"') × (c ≢ 92))
    ⊎ ((e : ℕ) × (escape_byte c ≡ 92 ∷ e ∷ []) × (unescape_byte e ≡ c) × (e ≢ b'u'))
    ⊎ ((c < 32) × (escape_byte c ≡ codes "\\u00" ++ k_hex (c / 16 % 16) ∷ k_hex (c % 16) ∷ []))

abbrev second : Bytes → ℕ
second (a ∷ b ∷ s) = b
second _ = 0

escape_byte-IsWritten : (c : ℕ) → IsWritten c
unfolding escape_byte unescape_byte
escape_byte-IsWritten c =
    elim (Bool-cases (c == b'"' || c == 92 || c == 8 || c == 9 || c == 10 || c == 12 || c == 13)) [
      | inl short ↦ inr (inl (second (escape_byte c), ground arith, ground arith, ground arith))
      | inr other ↦ elim (Bool-cases (ltb c 32)) [
        | inl low ↦ inr (inr (ground arith, ground arith))
        | inr high ↦ inl (ground arith, ground arith, ground arith)
      ]
    ]

append-ne-nil : (s : Bytes) (c : ℕ) (t : Bytes) → (s ++ c ∷ t) ≢ []
append-ne-nil [] c t e = cc
append-ne-nil (d ∷ s) c t e = cc

string_body-escape_byte :
    (c : ℕ) (s : Bytes)
    → 0 < c
    → s ≢ []
    → string_body 0 (escape_byte c ++ s) ≡ put_front (c ∷ []) (string_body 0 s)
string_body-escape_byte c s p ne = elim (escape_byte-IsWritten c) [
  | inl (e, q, b) ↦ rw e (string_body_plain c s ne q b)
  | inr (inl (d, e, back, u)) ↦ rw e (string_body_escape d s u ∙ rw back refl)
  | inr (inr (low, e)) ↦ rw e (string_body_unicode c s p (omega arith))
]

-- No byte is zero.
abbrev pub IsCString : Bytes → Type 0
IsCString = All (λ c. 0 < c)

pub string_body-json_escape :
    (v s : Bytes) → IsCString v → string_body 0 (json_escape v ++ b'"' ∷ s) ≡ (v, s)
unfolding json_escape
string_body-json_escape [] [] h = unfold string_body in refl
string_body-json_escape [] (c ∷ s) h = unfold string_body in refl
string_body-json_escape (c ∷ v) s h =
    ap (string_body 0) (append_assoc (escape_byte c) (json_escape v) (b'"' ∷ s))
    ∙ string_body-escape_byte c (json_escape v ++ b'"' ∷ s) h.0
        (append-ne-nil (json_escape v) b'"' s)
    ∙ ap (put_front (c ∷ [])) (string_body-json_escape v s h.1)

-- A text that holds no zero byte is read back from its quoted and escaped form.
pub parse_string-quoted : (v s : Bytes) → IsCString v → parse_string (quoted v ++ s) ≡ ok (v, s)
unfolding parse_string quoted expect
parse_string-quoted v s h =
    rw (append_assoc (json_escape v) (b'"' ∷ []) s) (ap ok (string_body-json_escape v s h))

pub length-string_body : (skip : ℕ) (s : Bytes) → length ((string_body skip s).1) ≤ length s
unfolding string_body
length-string_body zero [] = omega arith
length-string_body (suc skip) [] = omega arith
length-string_body (suc skip) (c ∷ s) = omega (arith, length-string_body skip s)
length-string_body zero (c ∷ []) = ground arith
length-string_body zero (c ∷ e ∷ s) = ground (
  arith,
  length-string_body zero (e ∷ s),
  length-string_body zero s,
  length-string_body ((unicode_escape s).1) s,
)
