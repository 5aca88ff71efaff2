-- ===== src/Base64/RoundTrip.antt =====
-- Reading back what an encoder of RFC 4648 writes: both alphabets, with padding or without, and
-- white space anywhere.
use native.Mathlib.Nat.{add-zero}
use entropy_vpn.Base.{
  ℕ, ◌+◌, ◌-◌, ◌*◌, ◌/◌, ◌%◌, ◌^◌, ◌<◌, Bool, false, [], ◌∷◌, ◌++◌, some, ◌≡◌, ◌∙◌, arith, Bytes,
  AreBytes, ◌==◌, ltb, if◌then◌else◌, append_assoc, append-nil, All-append, ap,
}
use entropy_vpn.Base64.Padding.{IsPadding, pad_lem, decode_loop_padding}
use entropy_vpn.Base64.{sextet, decode_loop, base64_decode}
use entropy_vpn.Result.{ok}
use entropy_vpn.Text.{remove_spaces}

-- The character for six bits, in the standard alphabet or in the one for URLs.
letter : Bool → ℕ → ℕ
letter url d =
    if ltb d 26
    then b'A' + d
    else if ltb d 52
    then b'a' + (d - 26)
    else if ltb d 62
    then b'0' + (d - 52)
    else if d == 62
    then if url then b'-' else b'+'
    else if url
    then b'_'
    else b'/'

-- Groups of three bytes to four characters, with no padding.
unfoldable pub encode : Bool → Bytes → Bytes
unfolding letter
encode url [] = []
encode url (a ∷ []) = letter url (a / 4) ∷ letter url (a % 4 * 16) ∷ []
encode url (a ∷ b ∷ []) =
    letter url (a / 4) ∷ letter url (a % 4 * 16 + b / 16) ∷ letter url (b % 16 * 4) ∷ []
encode url (a ∷ b ∷ c ∷ s) =
    letter url (a / 4)
    ∷ letter url (a % 4 * 16 + b / 16)
    ∷ letter url (b % 16 * 4 + c / 64)
    ∷ letter url (c % 64)
    ∷ encode url s

sextet-letter : (url : Bool) (d : ℕ) → d < 64 → sextet (letter url d) ≡ some d
unfolding sextet letter
sextet-letter url d h = ground arith

letter-ne-pad : (url : Bool) (d : ℕ) → d < 64 → (letter url d == b'=') ≡ false
unfolding letter
letter-ne-pad url d h = ground arith

module _ (url : Bool) (d : ℕ) (s : Bytes) (val : ℕ) (out : Bytes) (h : d < 64) where
  -- One round of the loop over a letter, in each state of the bits.
  step_0 : decode_loop (letter url d ∷ s) val 0 out ≡ decode_loop s ((val * 64 + d) % 2 ^ 32) 6 out
  unfolding decode_loop
  step_0 = rw (letter-ne-pad url d h, sextet-letter url d h)

  step_6 :
      decode_loop (letter url d ∷ s) val 6 out
      ≡ decode_loop s ((val * 64 + d) % 2 ^ 32) 4 (out ++ (val * 64 + d) % 2 ^ 32 / 16 % 256 ∷ [])
  unfolding decode_loop
  step_6 = rw (letter-ne-pad url d h, sextet-letter url d h)

  step_4 :
      decode_loop (letter url d ∷ s) val 4 out
      ≡ decode_loop s ((val * 64 + d) % 2 ^ 32) 2 (out ++ (val * 64 + d) % 2 ^ 32 / 4 % 256 ∷ [])
  unfolding decode_loop
  step_4 = rw (letter-ne-pad url d h, sextet-letter url d h)

  step_2 :
      decode_loop (letter url d ∷ s) val 2 out
      ≡ decode_loop s ((val * 64 + d) % 2 ^ 32) 0 (out ++ (val * 64 + d) % 2 ^ 32 / 1 % 256 ∷ [])
  unfolding decode_loop
  step_2 = rw (letter-ne-pad url d h, sextet-letter url d h)

-- The bits of `val` after one more letter.
shift_in : ℕ → ℕ → ℕ
shift_in val d = (val * 64 + d) % 2 ^ 32

module _ (url : Bool) (s : Bytes) (val : ℕ) (out : Bytes) where
  -- Two letters write the first byte of a group, and so on.
  step_first :
      (a x : ℕ)
      → a < 256
      → x < 16
      → decode_loop (letter url (a / 4) ∷ letter url (a % 4 * 16 + x) ∷ s) val 0 out
        ≡ decode_loop s (shift_in (shift_in val (a / 4)) (a % 4 * 16 + x)) 4 (out ++ a ∷ [])
  unfolding shift_in
  step_first a x ha hx =
      let byte : shift_in (shift_in val (a / 4)) (a % 4 * 16 + x) / 16 % 256 ≡ a = omega arith in
      step_0 url (a / 4) _ val out (omega arith)
      ∙ step_6 url (a % 4 * 16 + x) s _ out (omega arith)
      ∙ rw byte

module _ (url : Bool) (s : Bytes) (val a : ℕ) (out : Bytes) where
  step_second :
      (b x : ℕ)
      → b < 256
      → x < 4
      → decode_loop (letter url (b % 16 * 4 + x) ∷ s) (shift_in val (a * 16 + b / 16)) 4 out
        ≡ decode_loop s
            (shift_in (shift_in val (a * 16 + b / 16)) (b % 16 * 4 + x))
            2
            (out ++ b ∷ [])
  unfolding shift_in
  step_second b x hb hx =
      let byte : shift_in (shift_in val (a * 16 + b / 16)) (b % 16 * 4 + x) / 4 % 256 ≡ b =
        omega arith in
      step_4 url (b % 16 * 4 + x) s _ out (omega arith) ∙ rw byte

  step_third :
      (c : ℕ)
      → c < 256
      → decode_loop (letter url (c % 64) ∷ s) (shift_in val (a * 4 + c / 64)) 2 out
        ≡ decode_loop s (shift_in (shift_in val (a * 4 + c / 64)) (c % 64)) 0 (out ++ c ∷ [])
  unfolding shift_in
  step_third c hc =
      let byte : shift_in (shift_in val (a * 4 + c / 64)) (c % 64) / 1 % 256 ≡ c = omega arith in
      step_2 url (c % 64) s _ out (omega arith) ∙ rw byte

decode_loop-encode :
    (url : Bool) (s t : Bytes) (val : ℕ) (out : Bytes)
    → AreBytes s
    → IsPadding t
    → decode_loop (encode url s ++ t) val 0 out ≡ ok (out ++ s)
unfolding encode
decode_loop-encode url [] t val out hs ht = rw append-nil (decode_loop_padding t val 0 out ht)
decode_loop-encode url (a ∷ []) t val out hs ht =
    rw (← add-zero (a % 4 * 16))
      (step_first url t val out a 0 hs.0 (omega arith) ∙ decode_loop_padding t _ 4 _ ht)
decode_loop-encode url (a ∷ b ∷ []) t val out hs ht =
    step_first url _ val out a (b / 16) hs.0 (omega arith)
    ∙ rw (← add-zero (b % 16 * 4))
        (step_second url t _ (a % 4) _ b 0 hs.1.0 (omega arith) ∙ decode_loop_padding t _ 2 _ ht)
    ∙ ap ok (append_assoc out (a ∷ []) (b ∷ []))
decode_loop-encode url (a ∷ b ∷ c ∷ s) t val out hs ht =
    step_first url _ val out a (b / 16) hs.0 (omega arith)
    ∙ step_second url _ _ (a % 4) _ b (c / 64) hs.1.0 (omega arith)
    ∙ step_third url _ _ (b % 16) _ c hs.1.1.0
    ∙ decode_loop-encode url s t _ _ hs.1.1.1 ht
    ∙ ap ok (append_assoc _ (c ∷ []) s ∙ append_assoc _ (b ∷ []) _ ∙ append_assoc out (a ∷ []) _)

-- Whatever bytes are encoded, in the standard or the URL alphabet, with any amount of padding and
-- with white space anywhere, base64_decode returns them.
pub base64_decode-encode :
    (url : Bool) (s text t : Bytes)
    → AreBytes s
    → IsPadding t
    → remove_spaces text ≡ encode url s ++ t
    → base64_decode text ≡ ok s
unfolding base64_decode
base64_decode-encode url s text t hs ht e =
    let (u, padded, hu) = pad_lem 3 (encode url s ++ t) in
    rw (e, padded, append_assoc)
      (decode_loop-encode url s (t ++ u) 0 [] hs (All-append _ t u ht hu))
