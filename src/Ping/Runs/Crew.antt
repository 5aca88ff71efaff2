-- ===== src/Ping/Runs/Crew.antt =====
-- Counting over the workers of a pool.
use entropy_vpn.Base.{
  ℕ, zero, suc, ◌+◌, ◌<◌, Bool, true, false, ◌||◌, ◌==◌, List, [], ◌∷◌, ◌++◌, ◌≡◌, refl, sym, ap,
  ◌∙◌, length, length-append, if◌then◌else◌, arith,
}
use entropy_vpn.Ping.Workers.{Worker, ready, measuring, returned, repeat, all_returned}

abbrev pub held : ℕ → Worker → ℕ
held i (measuring j) = if j == i then 1 else 0
held i _ = 0

-- How many workers are at the target with the index.
unfoldable pub holding : ℕ → List Worker → ℕ
holding i [] = 0
holding i (w ∷ workers) = held i w + holding i workers

pub holding-append :
    (i : ℕ) (xs ys : List Worker) → holding i (xs ++ ys) ≡ holding i xs + holding i ys
unfolding holding
holding-append i [] ys = omega arith
holding-append i (w ∷ xs) ys = omega (arith, holding-append i xs ys)

abbrev pub has_left : Worker → Bool
has_left returned = true
has_left _ = false

unfoldable pub any_returned : List Worker → Bool
any_returned [] = false
any_returned (w ∷ workers) = has_left w || any_returned workers

pub any_returned-append :
    (xs ys : List Worker) → any_returned (xs ++ ys) ≡ (any_returned xs || any_returned ys)
unfolding any_returned
any_returned-append [] ys = refl
any_returned-append (w ∷ xs) ys = rw (any_returned-append xs ys) (ground arith)

-- The steps that a worker has left, beside those for targets that nobody has taken.
abbrev pub weight : Worker → ℕ
weight ready = 1
weight (measuring j) = 2
weight returned = 0

unfoldable pub weights : List Worker → ℕ
weights [] = 0
weights (w ∷ workers) = weight w + weights workers

pub weights-append : (xs ys : List Worker) → weights (xs ++ ys) ≡ weights xs + weights ys
unfolding weights
weights-append [] ys = omega arith
weights-append (w ∷ xs) ys = omega (arith, weights-append xs ys)

-- One worker takes the place of another.
pub holding_replaced :
    (i : ℕ) (before after : List Worker) (w w' : Worker)
    → holding i (before ++ w' ∷ after) + held i w ≡ holding i (before ++ w ∷ after) + held i w'
holding_replaced i before after w w' =
    let old = holding-append i before (w ∷ after) in
    let new = holding-append i before (w' ∷ after) in unfold holding in omega (arith, old, new)

pub weights_replaced :
    (before after : List Worker) (w w' : Worker)
    → weights (before ++ w' ∷ after) + weight w ≡ weights (before ++ w ∷ after) + weight w'
weights_replaced before after w w' =
    let old = weights-append before (w ∷ after) in
    let new = weights-append before (w' ∷ after) in unfold weights in omega (arith, old, new)

pub any_returned_replaced :
    (before after : List Worker) (w w' : Worker)
    → has_left w' ≡ false
    → any_returned (before ++ w' ∷ after) ≡ true
    → any_returned (before ++ w ∷ after) ≡ true
unfolding any_returned
any_returned_replaced before after w w' stays h =
    let old = any_returned-append before (w ∷ after) in
    let new = any_returned-append before (w' ∷ after) in old ∙ (ground (arith, sym new ∙ h))

pub length-repeat {ℓ} : {A : Type ℓ} (n : ℕ) (x : A) → length (repeat n x) ≡ n
unfolding repeat
length-repeat zero x = refl
length-repeat (suc n) x = ap suc (length-repeat n x)

pub holding-repeat : (i n : ℕ) → holding i (repeat n ready) ≡ 0
unfolding holding repeat
holding-repeat i zero = refl
holding-repeat i (suc n) = omega (arith, holding-repeat i n)

pub weights-repeat : (n : ℕ) → weights (repeat n ready) ≡ n
unfolding weights repeat
weights-repeat zero = refl
weights-repeat (suc n) = omega (arith, weights-repeat n)

pub any_returned-repeat : (n : ℕ) → any_returned (repeat n ready) ≡ false
unfolding any_returned repeat
any_returned-repeat zero = refl
any_returned-repeat (suc n) = any_returned-repeat n

pub all_returned-holding :
    (i : ℕ) (workers : List Worker) → all_returned workers ≡ true → holding i workers ≡ 0
unfolding all_returned holding
all_returned-holding i [] h = refl
all_returned-holding i (ready ∷ workers) h = ground arith
all_returned-holding i (measuring j ∷ workers) h = ground arith
all_returned-holding i (returned ∷ workers) h = omega (arith, all_returned-holding i workers h)

pub all_returned-any :
    (workers : List Worker)
    → 0 < length workers
    → all_returned workers ≡ true
    → any_returned workers ≡ true
unfolding all_returned any_returned
all_returned-any [] some_worker h = ground arith
all_returned-any (ready ∷ workers) some_worker h = ground arith
all_returned-any (measuring j ∷ workers) some_worker h = ground arith
all_returned-any (returned ∷ workers) some_worker h = refl

-- A worker that has not returned, and those on its two sides.
abbrev pub HasOther : List Worker → Type 0
HasOther workers =
    (before : List Worker) × (w : Worker) × (after : List Worker) × (has_left w ≡ false)
    × (workers ≡ before ++ w ∷ after)

pub all_returned-HasOther :
    (workers : List Worker) → all_returned workers ≡ false → HasOther workers
unfolding all_returned
all_returned-HasOther [] h = ground arith
all_returned-HasOther (ready ∷ workers) h = ([], ready, workers, refl, refl)
all_returned-HasOther (measuring j ∷ workers) h = ([], measuring j, workers, refl, refl)
all_returned-HasOther (returned ∷ workers) h =
    let (before, w, after, other, e) = all_returned-HasOther workers h in
    (returned ∷ before, w, after, other, ap (λ ws. returned ∷ ws) e)

pub worker_between : (before after : List Worker) (w : Worker) → 0 < length (before ++ w ∷ after)
worker_between before after w = let n = length-append before (w ∷ after) in omega (arith, n)
