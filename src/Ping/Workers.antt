-- ===== src/Ping/Workers.antt =====
-- The workers of `measure_tcp_pings_json`, which share an index and a vector of results: each step
-- of a worker is a step of the pool, in any order.
use entropy_vpn.Base.{
  ℕ, zero, suc, ◌≤◌, ◌<◌, Bool, true, false, List, [], ◌∷◌, ◌++◌, Option, none, some, ℤ, ◌≡◌,
  length,
}
use entropy_vpn.Ping.{TcpPingTarget, TcpPingResult, new_result, result_of}

-- In front of `fetch_add`, at the target with an index, or returned.
pub data Worker : Type 0 where
  ready : Worker
  measuring : ℕ → Worker
  returned : Worker

pub record Pool : Type 0 where
  pub next_index : ℕ
  pub workers : List Worker
  pub results : List TcpPingResult

module _ {ℓ} {A : Type ℓ} where
  -- `results[index]`
  unfoldable pub slot : ℕ → List A → Option A
  slot index [] = none
  slot zero (x ∷ xs) = some x
  slot (suc index) (x ∷ xs) = slot index xs

  -- `results[index] = x`
  unfoldable pub store : ℕ → A → List A → List A
  store index x [] = []
  store zero x (y ∷ xs) = x ∷ xs
  store (suc index) x (y ∷ xs) = y ∷ store index x xs

  unfoldable pub repeat : ℕ → A → List A
  repeat zero x = []
  repeat (suc n) x = x ∷ repeat n x

-- The workers are started, and nothing is measured.
unfoldable pub start : ℕ → List TcpPingTarget → Pool
unfolding repeat
start worker_count targets = record {
  next_index = 0;
  workers = repeat worker_count ready;
  results = repeat (length targets) new_result;
}

-- All threads are joined.
unfoldable pub all_returned : List Worker → Bool
all_returned [] = true
all_returned (returned ∷ workers) = all_returned workers
all_returned (_ ∷ workers) = false

module _ (connect : ℕ → Option ℤ) (targets : List TcpPingTarget) where
  -- `connect index` is what the connection to the target with this index gives.
  pub data Step : Pool → Pool → Type 0 where
    take :
        (next : ℕ) (before after : List Worker) (results : List TcpPingResult)
        → next < length targets
        → Step
            (record { next_index = next; workers = before ++ ready ∷ after; results = results })
            (record {
              next_index = suc next;
              workers = before ++ measuring next ∷ after;
              results = results;
            })
    leave :
        (next : ℕ) (before after : List Worker) (results : List TcpPingResult)
        → length targets ≤ next
        → Step
            (record { next_index = next; workers = before ++ ready ∷ after; results = results })
            (record {
              next_index = suc next;
              workers = before ++ returned ∷ after;
              results = results;
            })
    measure :
        (next index : ℕ) (target : TcpPingTarget) (before after : List Worker)
        (results : List TcpPingResult)
        → slot index targets ≡ some target
        → Step
            (record {
              next_index = next;
              workers = before ++ measuring index ∷ after;
              results = results;
            })
            (record {
              next_index = next;
              workers = before ++ ready ∷ after;
              results = store index (result_of target (connect index)) results;
            })

  -- So many steps of the pool.
  pub data Run : ℕ → Pool → Pool → Type 0 where
    stay : (s : Pool) → Run 0 s s
    step : (n : ℕ) (s t u : Pool) → Run n s t → Step t u → Run (suc n) s u

-- What the targets give one after the other.
unfoldable pub answers_from : (ℕ → Option ℤ) → ℕ → List TcpPingTarget → List TcpPingResult
answers_from connect index [] = []
answers_from connect index (target ∷ rest) =
    result_of target (connect index) ∷ answers_from connect (suc index) rest
