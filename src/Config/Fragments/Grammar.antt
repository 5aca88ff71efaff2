-- ===== src/Config/Fragments/Grammar.antt =====
-- The strings and numbers of JSON, after RFC 8259, and the texts of the writers among them. A byte
-- outside ASCII stands for itself: that such bytes are UTF-8 is not asked.
use mathlib.Core.Path.{subst}
use entropy_vpn.Base.{
  ℕ, zero, suc, ◌+◌, ◌/◌, ◌%◌, ◌<◌, ◌≤◌, Bool, true, false, [], ◌∷◌, ◌++◌, append_assoc, Bytes, ◌≡◌,
  ◌≢◌, refl, sym, arith, ◌==◌, ◌||◌, ltb, ℤ, pos, negsuc, inl, inr, ◌⊎◌, Bool-cases, if◌then◌else◌,
}
use entropy_vpn.Json.Escape.{k_hex, escape_byte, json_escape}
use entropy_vpn.Number.RoundTrip.{write_int_zero, write_last, write_more}
use entropy_vpn.Number.{write_digits, write_int}

-- What may follow a backslash, but for `u`.
abbrev is_escape : ℕ → Bool
is_escape c =
    c == b'"'
    || c == b'\\'
    || c == b'/'
    || c == b'b'
    || c == b'f'
    || c == b'n'
    || c == b'r'
    || c == b't'

abbrev IsDigit : ℕ → Type 0
IsDigit c = (b'0' ≤ c) × (c ≤ b'9')

-- A hexadecimal digit.
abbrev IsHex : ℕ → Type 0
IsHex c = IsDigit c ⊎ ((b'a' ≤ c) × (c ≤ b'f')) ⊎ ((b'A' ≤ c) × (c ≤ b'F'))

-- The text is the rest of a string behind its opening quote, and then the second text.
pub data StartsChars : Bytes → Bytes → Type 0 where
  end_quote : (rest : Bytes) → StartsChars (b'"' ∷ rest) rest
  plain_char :
      (c : ℕ) {s rest : Bytes}
      → 32 ≤ c
      → c ≢ b'"'
      → c ≢ b'\\'
      → StartsChars s rest
      → StartsChars (c ∷ s) rest
  escaped_char :
      (c : ℕ) {s rest : Bytes}
      → is_escape c ≡ true
      → StartsChars s rest
      → StartsChars (b'\\' ∷ c ∷ s) rest
  unicode_char :
      (a b c d : ℕ) {s rest : Bytes}
      → IsHex a × IsHex b × IsHex c × IsHex d
      → StartsChars s rest
      → StartsChars (b'\\' ∷ b'u' ∷ a ∷ b ∷ c ∷ d ∷ s) rest

-- The text is digits and then the second text.
pub data StartsDigits : Bytes → Bytes → Type 0 where
  no_digit : (rest : Bytes) → StartsDigits rest rest
  next_digit :
      (c : ℕ) {s rest : Bytes} → IsDigit c → StartsDigits s rest → StartsDigits (c ∷ s) rest

-- The text is a whole number and then the second text: a zero alone, or digits that no zero starts.
pub data StartsNumber : Bytes → Bytes → Type 0 where
  only_zero : (rest : Bytes) → StartsNumber (b'0' ∷ rest) rest
  first_digit :
      (c : ℕ) {s rest : Bytes}
      → b'1' ≤ c
      → c ≤ b'9'
      → StartsDigits s rest
      → StartsNumber (c ∷ s) rest

hex_digit : (d : ℕ) → d < 16 → IsHex (k_hex d)
unfolding k_hex
hex_digit d h = elim (Bool-cases (ltb d 10)) [
  | inl low ↦ rw low (inl (ground arith))
  | inr high ↦ rw high (inr (inl (ground arith)))
]

if-StartsChars :
    (b : Bool) (s t u rest : Bytes)
    → StartsChars (s ++ u) rest
    → (b ≡ false → StartsChars (t ++ u) rest)
    → StartsChars ((if b then s else t) ++ u) rest
if-StartsChars true s t u rest hs ht = hs
if-StartsChars false s t u rest hs ht = ht refl

escape_byte-StartsChars :
    (c : ℕ) (s rest : Bytes) → StartsChars s rest → StartsChars (escape_byte c ++ s) rest
unfolding escape_byte
escape_byte-StartsChars c s rest h =
    let short : (d : ℕ) → is_escape d ≡ true → StartsChars (b'\\' ∷ d ∷ s) rest =
      λ d e. escaped_char d e h in
    if-StartsChars (c == b'"') _ _ s rest (short b'"' refl) (λ quote.
      if-StartsChars (c == b'\\') _ _ s rest (short b'\\' refl) (λ backslash.
        if-StartsChars (c == 8) _ _ s rest (short b'b' refl) (λ e8.
          if-StartsChars (c == 12) _ _ s rest (short b'f' refl) (λ e12.
            if-StartsChars (c == 10) _ _ s rest (short b'n' refl) (λ e10.
              if-StartsChars (c == 13) _ _ s rest (short b'r' refl) (λ e13.
                if-StartsChars (c == 9) _ _ s rest (short b't' refl) (λ e9.
                  if-StartsChars (ltb c 32) _ _ s rest
                    (unicode_char b'0' b'0' (k_hex (c / 16 % 16)) (k_hex (c % 16))
                      (
                        inl (omega arith, omega arith),
                        inl (omega arith, omega arith),
                        hex_digit (c / 16 % 16) (omega arith),
                        hex_digit (c % 16) (omega arith),
                      )
                      h)
                    (λ large. plain_char c (ground arith) (ground arith) (ground arith) h))))))))

pub json_escape-StartsChars : (v rest : Bytes) → StartsChars (json_escape v ++ b'"' ∷ rest) rest
unfolding json_escape
json_escape-StartsChars [] rest = end_quote rest
json_escape-StartsChars (c ∷ v) rest =
    rw (append_assoc (escape_byte c) (json_escape v) (b'"' ∷ rest))
      (escape_byte-StartsChars c _ rest (json_escape-StartsChars v rest))

-- The digits of a number that is not zero, in front of other digits.
write_digits-StartsNumber :
    (rounds n : ℕ) (out rest : Bytes)
    → n < rounds
    → 0 < n
    → StartsDigits (out ++ rest) rest
    → StartsNumber (write_digits rounds n out ++ rest) rest
write_digits-StartsNumber zero n out rest h p digits = absurd (omega arith)
write_digits-StartsNumber (suc rounds) n out rest h p digits = elim (Bool-cases (n / 10 == 0)) [
  | inl last ↦
      rw (write_last rounds n out (ground arith))
        (first_digit (b'0' + n % 10) (ground arith) (omega arith) digits)
  | inr more ↦ rw (write_more rounds n out more) (
      write_digits-StartsNumber rounds (n / 10) ((b'0' + n % 10) ∷ out) rest (ground arith)
        (ground arith) (next_digit (b'0' + n % 10) (omega arith, omega arith) digits))
]

-- A number is written without a leading zero, behind a minus sign if it is negative.
pub write_int-StartsNumber :
    (i : ℤ) (rest : Bytes)
    → StartsNumber (write_int i ++ rest) rest
      ⊎ ((s : Bytes) × (write_int i ≡ b'-' ∷ s) × StartsNumber (s ++ rest) rest)
unfolding write_int
write_int-StartsNumber (pos zero) rest =
    inl (subst (λ s. StartsNumber (s ++ rest) rest) (sym write_int_zero) (only_zero rest))
write_int-StartsNumber (pos (suc n)) rest = inl (
    write_digits-StartsNumber (suc (suc n)) (suc n) [] rest (omega arith) (omega arith)
      (no_digit rest))
write_int-StartsNumber (negsuc n) rest = inr (
  write_digits (suc (suc n)) (suc n) [],
  refl,
  write_digits-StartsNumber (suc (suc n)) (suc n) [] rest (omega arith) (omega arith)
      (no_digit rest),
)
