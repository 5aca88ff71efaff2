-- ===== src/Base64/Errors.antt =====
-- Which texts `base64_decode` accepts, and how many bytes it returns.
use entropy_vpn.Base.{
  ℕ, ◌+◌, ◌-◌, ◌*◌, ◌/◌, ◌%◌, ◌^◌, ◌<◌, ◌≤◌, Bool, true, false, [], ◌∷◌, ◌++◌, none, some, ◌≡◌,
  refl, arith, Bytes, All, ◌==◌, leb, length, length-append, Option-cases, Bool-cases, inl, inr,
}
use entropy_vpn.Base64.Padding.{IsPadding, pad_lem}
use entropy_vpn.Base64.{sextet, decode_loop, base64_decode, invalid_payload}
use entropy_vpn.Result.{Result, ok, err}
use entropy_vpn.Text.{remove_spaces, before_first, is_some}

abbrev pub is_pad : ℕ → Bool
is_pad c = c == b'='

-- A character of one of the two alphabets.
abbrev pub IsLetter : ℕ → Type 0
IsLetter c = is_some (sextet c) ≡ true

before_first_padding :
    (s t : Bytes) → IsPadding t → before_first is_pad (s ++ t) ≡ before_first is_pad s
unfolding before_first
before_first_padding [] [] h = refl
before_first_padding [] (c ∷ t) h = rw h.0
before_first_padding (c ∷ s) t h = rw (before_first_padding s t h)

-- One round over a letter goes on from some state; the second part says how much it wrote.
round :
    (c d : ℕ) (s : Bytes) (val bits : ℕ) (out : Bytes)
    → (c == b'=') ≡ false
    → sextet c ≡ some d
    → bits < 8
    → (val' bits' : ℕ) × (out' : Bytes) × (decode_loop (c ∷ s) val bits out
        ≡ decode_loop s val' bits' out')
      × (bits' < 8)
      × (8 * length out' + bits' ≡ 8 * length out + bits + 6)
unfolding decode_loop
round c d s val bits out go good hb = elim (Bool-cases (leb 8 (bits + 6))) [
  | inl full ↦ (
    shift_in val d,
    bits + 6 - 8,
    out ++ shift_in val d / 2 ^ (bits + 6 - 8) % 256 ∷ [],
    rw (go, good, full),
    ground arith,
    ground (arith, length-append {0} out (shift_in val d / 2 ^ (bits + 6 - 8) % 256 ∷ [])),
  )
  | inr more ↦ (shift_in val d, bits + 6, out, rw (go, good, more), ground arith, omega arith)
]
  where
    shift_in : ℕ → ℕ → ℕ
    shift_in v d = (v * 64 + d) % 2 ^ 32

round_stop :
    (s : Bytes) (c val bits : ℕ) (out : Bytes)
    → (c == b'=') ≡ true
    → decode_loop (c ∷ s) val bits out ≡ ok out
unfolding decode_loop
round_stop s c val bits out stop = rw stop

round_refuses :
    (s : Bytes) (c val bits : ℕ) (out : Bytes)
    → (c == b'=') ≡ false
    → sextet c ≡ none
    → decode_loop (c ∷ s) val bits out ≡ err invalid_payload
unfolding decode_loop
round_refuses s c val bits out go bad = rw (go, bad)

-- The outcome of the loop from any state, by the letters in front of the padding.
abbrev pub Outcome : Bytes → ℕ → Bytes → Result Bytes → Type 0
Outcome letters bits out (ok r) =
    All IsLetter letters
    × (8 * length r ≤ 8 * length out + bits + 6 * length letters)
    × (8 * length out + bits + 6 * length letters < 8 * length r + 8)
Outcome letters bits out (err e) = (¬ All IsLetter letters) × (e ≡ invalid_payload)

-- The state before a letter and the state after it give the same outcome.
Outcome-cons :
    (r : Result Bytes) (letters out out' : Bytes) (c bits bits' : ℕ)
    → IsLetter c
    → 8 * length out' + bits' ≡ 8 * length out + bits + 6
    → Outcome letters bits' out' r
    → Outcome (c ∷ letters) bits out r
Outcome-cons (ok r) letters out out' c bits bits' l e (h, lo, hi) =
    ((l, h), omega arith, omega arith)
Outcome-cons (err m) letters out out' c bits bits' l e (h, message) = (λ all. h all.1, message)

decode_loop-Outcome :
    (s : Bytes) (val bits : ℕ) (out : Bytes)
    → bits < 8
    → Outcome (before_first is_pad s) bits out (decode_loop s val bits out)
unfolding before_first
decode_loop-Outcome [] val bits out hb = unfold decode_loop in (tt, omega arith, omega arith)
decode_loop-Outcome (c ∷ s) val bits out hb = elim (Bool-cases (c == b'=')) [
  | inl stop ↦ rw (round_stop s c val bits out stop, stop) (tt, omega arith, omega arith)
  | inr go ↦ elim (Option-cases (sextet c)) [
    | inl bad ↦ rw (round_refuses s c val bits out go bad, go) (λ h. ground arith, refl)
    | inr (d, good) ↦
        let (val', bits', out', next, hb', count) = round c d s val bits out go good hb in
        rw (next, go)
          (Outcome-cons (decode_loop s val' bits' out') (before_first is_pad s) out out' c bits
            bits' (rw good) count (decode_loop-Outcome s val' bits' out' hb'))
  ]
]

-- For every text: when all characters in front of the first padding character (white space aside)
-- are letters of the two alphabets, base64_decode returns as many whole bytes as the letters hold;
-- else it fails with the message for an invalid payload.
pub base64_decode-Outcome :
    (value : Bytes) → Outcome (before_first is_pad (remove_spaces value)) 0 [] (base64_decode value)
unfolding base64_decode
base64_decode-Outcome value =
    let (t, padded, h) = pad_lem 3 (remove_spaces value) in
    rw (padded, ← before_first_padding (remove_spaces value) t h)
      (decode_loop-Outcome (remove_spaces value ++ t) 0 0 [] (omega arith))
