-- ===== src/Ping/Runs/Slots.antt =====
-- Reading a vector after a store.
use entropy_vpn.Base.{
  ℕ, zero, suc, ◌<◌, List, [], ◌∷◌, none, some, ◌≡◌, ◌≢◌, refl, ap, ◌∙◌, length, arith,
}
use entropy_vpn.Ping.Workers.{slot, store}

module _ {ℓ} {A : Type ℓ} where
  pub length-store : (i : ℕ) (x : A) (xs : List A) → length (store i x xs) ≡ length xs
  unfolding store
  length-store i x [] = refl
  length-store zero x (y ∷ xs) = refl
  length-store (suc i) x (y ∷ xs) = ap suc (length-store i x xs)

  pub slot-store : (i : ℕ) (x : A) (xs : List A) → i < length xs → slot i (store i x xs) ≡ some x
  unfolding slot store
  slot-store i x [] h = ground arith
  slot-store zero x (y ∷ xs) h = refl
  slot-store (suc i) x (y ∷ xs) h = slot-store i x xs (omega (arith, h))

  pub slot-store_other : (i j : ℕ) (x : A) (xs : List A) → i ≢ j → slot j (store i x xs) ≡ slot j xs
  unfolding slot store
  slot-store_other i j x [] h = refl
  slot-store_other zero zero x (y ∷ xs) h = ground arith
  slot-store_other zero (suc j) x (y ∷ xs) h = refl
  slot-store_other (suc i) zero x (y ∷ xs) h = refl
  slot-store_other (suc i) (suc j) x (y ∷ xs) h = slot-store_other i j x xs (omega (arith, h))

  pub slot-some : (i : ℕ) (xs : List A) → i < length xs → (x : A) × (slot i xs ≡ some x)
  unfolding slot
  slot-some i [] h = ground arith
  slot-some zero (x ∷ xs) h = (x, refl)
  slot-some (suc i) (x ∷ xs) h = slot-some i xs (omega (arith, h))

  -- Lists of one length with the same slots are the same.
  pub slot_ext :
      (xs ys : List A)
      → length xs ≡ length ys
      → ((i : ℕ) → i < length xs → slot i xs ≡ slot i ys)
      → xs ≡ ys
  unfolding slot
  slot_ext [] [] e h = refl
  slot_ext [] (y ∷ ys) e h = ground arith
  slot_ext (x ∷ xs) [] e h = ground arith
  slot_ext (x ∷ xs) (y ∷ ys) e h =
      let head = h 0 (omega arith) in
      let tail = slot_ext xs ys (omega (arith, e)) (λ i small. h (suc i) (omega (arith, small))) in
      ap (λ o. elim o [ none ↦ x ∷ xs | some z ↦ z ∷ xs ]) head ∙ ap (λ zs. y ∷ zs) tail
