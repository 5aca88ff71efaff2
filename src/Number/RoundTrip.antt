-- ===== src/Number/RoundTrip.antt =====
-- Reading back a written `int`.
use entropy_vpn.Base.{
  ℕ, zero, suc, ◌+◌, ◌/◌, ◌%◌, ◌<◌, true, false, [], ◌∷◌, some, Bytes, ◌≡◌, refl, arith, ◌==◌, ℤ,
  pos, negsuc, IsInt, inl, inr, ◌⊎◌, Bool-cases, ◌∙◌, ap, sym, All, All-map, Lacks,
}
use entropy_vpn.Number.{
  read_digits, read_number, positive_in_range, negative_in_range, from_chars, parse_int,
  write_digits, write_int,
}
use entropy_vpn.Text.{is_digit}

-- Reading the last digit of `n` behind the digits before it gives `n`.
read_last : (n : ℕ) (out : Bytes) → read_digits ((b'0' + n % 10) ∷ out) (n / 10) ≡ read_digits out n
unfolding read_digits
read_last n out = ground arith

read_only :
    (n : ℕ) (out : Bytes) → n / 10 ≡ 0 → read_digits ((b'0' + n % 10) ∷ out) 0 ≡ read_digits out n
read_only n out e = let e' : n / 10 ≡ 0 = e in rw (← e') (read_last n out)

-- One round of the writing loop.
pub write_last :
    (rounds n : ℕ) (out : Bytes)
    → n / 10 ≡ 0
    → write_digits (suc rounds) n out ≡ (b'0' + n % 10) ∷ out
unfolding write_digits
write_last rounds n out e =
    let last : (n / 10 == 0) ≡ true = ground arith in
    ap
      (λ b. elim b [
        | true ↦ (b'0' + n % 10) ∷ out
        | false ↦ write_digits rounds (n / 10) ((b'0' + n % 10) ∷ out)
      ])
      last

pub write_more :
    (rounds n : ℕ) (out : Bytes)
    → (n / 10 == 0) ≡ false
    → write_digits (suc rounds) n out ≡ write_digits rounds (n / 10) ((b'0' + n % 10) ∷ out)
unfolding write_digits
write_more rounds n out e =
    ap
      (λ b. elim b [
        | true ↦ (b'0' + n % 10) ∷ out
        | false ↦ write_digits rounds (n / 10) ((b'0' + n % 10) ∷ out)
      ])
      e

read_digits-write_digits :
    (rounds n : ℕ) (out : Bytes)
    → n < rounds
    → read_digits (write_digits rounds n out) 0 ≡ read_digits out n
read_digits-write_digits zero n out h = absurd (omega arith)
read_digits-write_digits (suc rounds) n out h = elim (Bool-cases (n / 10 == 0)) [
  | inl last ↦
      let e : n / 10 ≡ 0 = ground arith in rw (write_last rounds n out e) (read_only n out e)
  | inr more ↦
      let small : n / 10 < rounds = ground arith in
      rw (write_more rounds n out more)
        (read_digits-write_digits rounds (n / 10) _ small ∙ read_last n out)
]

write_digits-cons :
    (rounds n : ℕ) (out : Bytes)
    → (c : ℕ) × (s : Bytes) × (write_digits (suc rounds) n out ≡ c ∷ s) × (is_digit c ≡ true)
write_digits-cons zero n out =
    (b'0' + n % 10, out, unfold write_digits in ground arith, ground arith)
write_digits-cons (suc rounds) n out = elim (Bool-cases (n / 10 == 0)) [
  | inl last ↦ (b'0' + n % 10, out, write_last (suc rounds) n out (ground arith), ground arith)
  | inr more ↦
      let (c, s, e, d) = write_digits-cons rounds (n / 10) ((b'0' + n % 10) ∷ out) in
      (c, s, write_more (suc rounds) n out more ∙ e, d)
]

read_number-cons : (c : ℕ) (s : Bytes) → read_number (c ∷ s) ≡ read_digits (c ∷ s) 0
unfolding read_number
read_number-cons c s = refl

read_digits-nil : (n : ℕ) → read_digits [] n ≡ some n
unfolding read_digits
read_digits-nil n = refl

read_number-write_digits : (n : ℕ) → read_number (write_digits (suc n) n []) ≡ some n
read_number-write_digits n =
    let (c, s, e, d) = write_digits-cons n n [] in
    ap read_number e
    ∙ read_number-cons c s
    ∙ ap (λ t. read_digits t 0) (sym e)
    ∙ read_digits-write_digits (suc n) n [] (omega arith)
    ∙ read_digits-nil n

from_chars_digit :
    (c : ℕ) (s : Bytes)
    → is_digit c ≡ true
    → from_chars (c ∷ s) ≡ positive_in_range (read_number (c ∷ s))
unfolding from_chars
from_chars_digit c s d = ground arith

from_chars-write_digits :
    (n : ℕ) → from_chars (write_digits (suc n) n []) ≡ positive_in_range (some n)
from_chars-write_digits n =
    let (c, s, e, d) = write_digits-cons n n [] in
    rw e (from_chars_digit c s d ∙ rw (← e) (ap positive_in_range (read_number-write_digits n)))

-- Every int is read back by parse_int from what the stream writes, whatever the fallback.
pub parse_int-write_int : (i fallback : ℤ) → IsInt i → parse_int (write_int i) fallback ≡ i
unfolding parse_int write_int
parse_int-write_int (pos n) fallback h =
    rw (from_chars-write_digits n) (unfold positive_in_range in ground arith)
parse_int-write_int (negsuc n) fallback h =
    rw (read_number-write_digits (suc n)) (unfold negative_in_range in ground arith)

pub write_int_zero : write_int (pos 0) ≡ b'0' ∷ []
unfolding write_int write_digits
write_int_zero = refl

-- Writing starts with a digit or a minus sign.
pub write_int-cons :
    (i : ℤ) → (c : ℕ) × (s : Bytes) × (write_int i ≡ c ∷ s) × ((is_digit c ≡ true) ⊎ (c ≡ b'-'))
unfolding write_int
write_int-cons (pos n) = let (c, s, e, d) = write_digits-cons n n [] in (c, s, e, inl d)
write_int-cons (negsuc n) = (b'-', write_digits (suc (suc n)) (suc n) [], refl, inr refl)

-- Only digits are written.
write_digits-is_digit :
    (rounds n : ℕ) (out : Bytes)
    → All (λ c. is_digit c ≡ true) out
    → All (λ c. is_digit c ≡ true) (write_digits rounds n out)
write_digits-is_digit zero n out h = unfold write_digits in h
write_digits-is_digit (suc rounds) n out h =
    let digit : is_digit (b'0' + n % 10) ≡ true = ground arith in
    elim (Bool-cases (n / 10 == 0)) [
      | inl last ↦ rw (write_last rounds n out (ground arith)) (digit, h)
      | inr more ↦
          rw (write_more rounds n out more)
            (write_digits-is_digit rounds (n / 10) ((b'0' + n % 10) ∷ out) (digit, h))
    ]

pub write_int-Lacks : (n b : ℕ) → is_digit b ≡ false → Lacks b (write_int (pos n))
unfolding write_int
write_int-Lacks n b h =
    All-map (λ c (d : is_digit c ≡ true). λ (same : c ≡ b). cc (d, h, ap is_digit same)) _
      (write_digits-is_digit (suc n) n [] tt)

-- A byte of a written `int`.
abbrev pub IsNumeric : ℕ → Type 0
IsNumeric c = (is_digit c ≡ true) ⊎ (c ≡ b'-')

pub write_int-IsNumeric : (i : ℤ) → All IsNumeric (write_int i)
unfolding write_int
write_int-IsNumeric (pos n) =
    All-map (λ c (d : is_digit c ≡ true). inl d) _ (write_digits-is_digit (suc n) n [] tt)
write_int-IsNumeric (negsuc n) = (
  inr refl,
  All-map (λ c (d : is_digit c ≡ true). inl d) _
      (write_digits-is_digit (suc (suc n)) (suc n) [] tt),
)
