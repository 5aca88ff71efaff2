-- ===== src/Uri/Decode/RoundTrip.antt =====
-- Reading back percent-encoded text.
use entropy_vpn.Base.{
  ℕ, ◌+◌, ◌-◌, ◌/◌, ◌%◌, ◌<◌, Bool, true, false, ◌||◌, [], ◌∷◌, ◌++◌, some, Bytes, AreBytes, All,
  All-append, All-map, Lacks, ◌==◌, ltb, if◌then◌else◌, ◌≡◌, ◌≢◌, refl, arith, ◌∙◌, ap, Bool-cases,
  inl, inr,
}
use entropy_vpn.Text.{is_alnum}
use entropy_vpn.Uri.Decode.{hex_value, strtol_16, plain, url_decode}

-- RFC 3986: letters, digits, `-`, `.`, `_` and `~` stand for themselves.
abbrev pub is_unreserved : ℕ → Bool
is_unreserved c = is_alnum c || c == b'-' || c == b'.' || c == b'_' || c == b'~'

hex_digit : ℕ → ℕ
hex_digit d = if ltb d 10 then b'0' + d else b'A' + (d - 10)

encode_byte : ℕ → Bytes
unfolding hex_digit
encode_byte c =
    if is_unreserved c then c ∷ [] else b'%' ∷ hex_digit (c / 16) ∷ hex_digit (c % 16) ∷ []

unfoldable pub percent_encode : Bytes → Bytes
unfolding encode_byte
percent_encode [] = []
percent_encode (c ∷ s) = encode_byte c ++ percent_encode s

hex_value-hex_digit : (d : ℕ) → d < 16 → hex_value (hex_digit d) ≡ some d
unfolding hex_value hex_digit
hex_value-hex_digit d h = ground arith

strtol_16-hex_digit :
    (c : ℕ) → c < 256 → strtol_16 (hex_digit (c / 16)) (hex_digit (c % 16)) ≡ some c
unfolding strtol_16
strtol_16-hex_digit c h =
    rw (hex_value-hex_digit (c / 16) (omega arith), hex_value-hex_digit (c % 16) (omega arith))
      (ap some (omega arith))

-- A byte that starts no escape is copied, whatever follows.
url_decode-plain : (c : ℕ) (s : Bytes) → c ≢ b'%' → url_decode (c ∷ s) ≡ plain c ∷ url_decode s
unfolding url_decode
url_decode-plain c [] h = refl
url_decode-plain c (a ∷ []) h = refl
url_decode-plain c (a ∷ b ∷ s) h = ground arith

url_decode-encode_byte :
    (c : ℕ) (s : Bytes) → c < 256 → url_decode (encode_byte c ++ s) ≡ c ∷ url_decode s
unfolding encode_byte
url_decode-encode_byte c s h = elim (Bool-cases (is_unreserved c)) [
  | inl safe ↦ rw safe (url_decode-plain c s (ground arith) ∙ unfold plain in ground arith)
  | inr unsafe ↦ rw unsafe (unfold url_decode in rw (strtol_16-hex_digit c h))
]

-- Every text of bytes is read back by url_decode from its percent-encoding.
pub url_decode-percent_encode : (s : Bytes) → AreBytes s → url_decode (percent_encode s) ≡ s
unfolding percent_encode
url_decode-percent_encode [] h = unfold url_decode in refl
url_decode-percent_encode (c ∷ s) h =
    url_decode-encode_byte c (percent_encode s) h.0 ∙ ap (◌∷◌ c) (url_decode-percent_encode s h.1)

abbrev pub is_encoded : ℕ → Bool
is_encoded c = is_unreserved c || c == b'%'

-- What the encoder writes.
abbrev pub IsEncoded : ℕ → Type 0
IsEncoded c = is_encoded c ≡ true

hex_digit-IsEncoded : (d : ℕ) → d < 16 → IsEncoded (hex_digit d)
unfolding hex_digit
hex_digit-IsEncoded d h = ground arith

encode_byte-IsEncoded : (c : ℕ) → c < 256 → All IsEncoded (encode_byte c)
unfolding encode_byte
encode_byte-IsEncoded c h = elim (Bool-cases (is_unreserved c)) [
  | inl safe ↦ rw safe (rw safe refl, tt)
  | inr unsafe ↦ rw unsafe (
    refl,
    (hex_digit-IsEncoded (c / 16) (omega arith), (hex_digit-IsEncoded (c % 16) (omega arith), tt)),
  )
]

pub percent_encode-IsEncoded : (s : Bytes) → AreBytes s → All IsEncoded (percent_encode s)
unfolding percent_encode
percent_encode-IsEncoded [] h = tt
percent_encode-IsEncoded (c ∷ s) h =
    All-append IsEncoded (encode_byte c) (percent_encode s) (encode_byte-IsEncoded c h.0)
      (percent_encode-IsEncoded s h.1)

pub percent_encode-Lacks :
    (b : ℕ) (s : Bytes) → is_encoded b ≡ false → AreBytes s → Lacks b (percent_encode s)
percent_encode-Lacks b s out h =
    All-map (λ c (e : IsEncoded c). λ (same : c ≡ b). cc (e, out, ap is_encoded same)) _
      (percent_encode-IsEncoded s h)

-- A slash in front of encoded text stays.
pub url_decode_slash : (s : Bytes) → AreBytes s → url_decode (b'/' ∷ percent_encode s) ≡ b'/' ∷ s
url_decode_slash s h =
    url_decode-plain b'/' (percent_encode s) (omega arith)
    ∙ unfold plain in ap (◌∷◌ b'/') (url_decode-percent_encode s h)

-- The encoding of a text that is not empty starts with an encoded byte.
pub percent_encode-cons :
    (s : Bytes)
    → s ≢ []
    → AreBytes s
    → (c : ℕ) × (t : Bytes) × (percent_encode s ≡ c ∷ t) × IsEncoded c
unfolding percent_encode
percent_encode-cons [] ne h = absurd (ne refl)
percent_encode-cons (c ∷ s) ne h = elim (Bool-cases (is_unreserved c)) [
  | inl safe ↦ (c, percent_encode s, rw safe, rw safe)
  | inr unsafe ↦ (b'%', hex_digit (c / 16) ∷ hex_digit (c % 16) ∷ percent_encode s, rw unsafe, refl)
]
