-- ===== src/Base64/Padding.antt =====
-- The padding that `base64_decode` appends, and the padding that it may find.
use entropy_vpn.Base.{
  ℕ, zero, suc, ◌%◌, [], ◌∷◌, ◌++◌, ◌≡◌, refl, ◌∙◌, arith, Bytes, All, ◌==◌, append_assoc,
  append-nil, length, length-append, inl, inr, Bool-cases,
}
use entropy_vpn.Base64.{pad, decode_loop}
use entropy_vpn.Result.{ok}

abbrev pub IsPadding : Bytes → Type 0
IsPadding = All (λ c. c ≡ b'=')

-- What `pad` returns is its argument and padding.
pub pad_lem : (rounds : ℕ) (s : Bytes) → (t : Bytes) × (pad rounds s ≡ s ++ t) × IsPadding t
unfolding pad
pad_lem zero s = ([], rw append-nil, tt)
pad_lem (suc rounds) s = elim (Bool-cases (length s % 4 == 0)) [
  | inl full ↦ ([], rw (full, append-nil), tt)
  | inr short ↦
      let (t, e, h) = pad_lem rounds (s ++ b'=' ∷ []) in
      (b'=' ∷ t, rw short (e ∙ append_assoc s (b'=' ∷ []) t), (refl, h))
]

-- Three rounds pad every text to whole groups of four.
pub length-pad : (s : Bytes) → length (pad 3 s) % 4 ≡ 0
unfolding pad
length-pad s = ground (
  arith,
  length-append s (b'=' ∷ []),
  length-append (s ++ b'=' ∷ []) (b'=' ∷ []),
  length-append ((s ++ b'=' ∷ []) ++ b'=' ∷ []) (b'=' ∷ []),
)

-- The loop ends at padding.
pub decode_loop_padding :
    (t : Bytes) (val bits : ℕ) (out : Bytes) → IsPadding t → decode_loop t val bits out ≡ ok out
unfolding decode_loop
decode_loop_padding [] val bits out h = refl
decode_loop_padding (c ∷ t) val bits out h = rw h.0
