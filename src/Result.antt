-- ===== src/Result.antt =====
-- What a function of native/share_link_parser.cpp that may throw returns: its value, or the text
-- of the `std::runtime_error`.
use entropy_vpn.Base.{Bool, true, false, ◌≡◌, refl, Bytes}

pub data Result {ℓ} (A : Type ℓ) : Type ℓ where
  ok : A → Result A
  err : Bytes → Result A

infixl 5 ◌>>=◌
abbrev pub ◌>>=◌ {ℓ κ} :
    {Value : Type ℓ} {Next : Type κ} → Result Value → (Value → Result Next) → Result Next
err message >>= continue = err message
ok value >>= continue = continue value

-- A check that may throw, in front of the rest.
infixl 5 ◌>>◌
abbrev pub ◌>>◌ {ℓ} : {Next : Type ℓ} → Result (Unit {0}) → Result Next → Result Next
check >> next = check >>= λ done. next

-- `if (test) throw std::runtime_error(message);`
abbrev pub throw_if : Bool → Bytes → Result (Unit {0})
throw_if true message = err message
throw_if false message = ok tt

pub bind-eq-ok {ℓ κ} :
    {Value : Type ℓ} {Next : Type κ} (r : Result Value) (continue : Value → Result Next)
    {last : Next}
    → (r >>= continue) ≡ ok last
    → (value : Value) × (r ≡ ok value) × (continue value ≡ ok last)
bind-eq-ok (err message) continue h = cc
bind-eq-ok (ok value) continue h = (value, refl, h)

abbrev pub Succeeds {ℓ} : {A : Type ℓ} → Result A → Type 0
Succeeds (ok a) = Unit
Succeeds (err e) = ⊥
