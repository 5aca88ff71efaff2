-- ===== src/Ping/Output.antt =====
-- The text that `measure_tcp_pings_json` returns, whatever the order of the threads.
use entropy_vpn.Base.{
  ℕ, zero, suc, ◌≤◌, ◌<◌, true, false, List, [], ◌∷◌, Option, Bytes, codes, ℤ, pos, negsuc, ◌≡◌,
  inl, inr, refl, ap, arith, Bool-cases, is_empty,
}
use entropy_vpn.Json.Value.{Doubles}
use entropy_vpn.Ping.Runs.{Run-answers, Run-progress, Step-todo, todo}
use entropy_vpn.Ping.Workers.{Pool, start, Run, stay, step, all_returned, answers_from}
use entropy_vpn.Ping.{
  TcpPingTarget, tcp_ping_targets_from_json, used_timeout, used_concurrent, worker_count,
  result_rows, write_results,
}
use entropy_vpn.Result.{ok}
use entropy_vpn.Share.Extract.{array_text}

pub used_concurrent_bounds :
    (max_concurrent : ℤ)
    → (1 ≤ used_concurrent max_concurrent) × (used_concurrent max_concurrent ≤ 64)
unfolding used_concurrent
used_concurrent_bounds (pos n) = ground arith
used_concurrent_bounds (negsuc n) = ground arith

worker_count_lem :
    (max_concurrent : ℤ) (targets : List TcpPingTarget)
    → is_empty targets ≡ false
    → 0 < worker_count max_concurrent targets
unfolding worker_count
worker_count_lem max_concurrent [] h = ground arith
worker_count_lem max_concurrent (t ∷ targets) h =
    let b = used_concurrent_bounds max_concurrent in ground (arith, b)

module _ (connect : ℕ → Option ℤ) (targets : List TcpPingTarget) (count : ℕ) where
  abbrev pub Finish : Type 0
  Finish =
      (n : ℕ) × (s : Pool) × Run connect targets n (start count targets) s
      × (all_returned s.workers ≡ true)

  -- From wherever the pool stands, it comes to an end.
  Run-Finish :
      (k n : ℕ) (s : Pool)
      → Run connect targets n (start count targets) s
      → todo connect targets s ≡ k
      → Finish
  Run-Finish zero n s run left = elim (Bool-cases (all_returned s.workers)) [
    | inl ended ↦ (n, s, run, ended)
    | inr unfinished ↦
        let (t, next) = Run-progress connect targets count n s run unfinished in
        let one = Step-todo connect targets s t next in
        let wrong : ⊥ = omega (arith, one, left) in elim wrong [ ]
  ]
  Run-Finish (suc k) n s run left = elim (Bool-cases (all_returned s.workers)) [
    | inl ended ↦ (n, s, run, ended)
    | inr unfinished ↦
        let (t, next) = Run-progress connect targets count n s run unfinished in
        let one = Step-todo connect targets s t next in
        Run-Finish k (suc n) t (step n (start count targets) s t run next)
          (omega (arith, one, left))
  ]

module _ {N : Type 0} (D : Doubles N) (connect : ℤ → ℕ → Option ℤ) (targets_json : Bytes)
    (timeout_ms max_concurrent : ℤ) where
  -- What a call can return: the threads take their steps in some order, and are joined.
  pub data Measures : Bytes → Type 0 where
    no_target : tcp_ping_targets_from_json D targets_json ≡ ok [] → Measures (codes "[]")
    joined :
        (targets : List TcpPingTarget) (n : ℕ) (s : Pool)
        → tcp_ping_targets_from_json D targets_json ≡ ok targets
        → is_empty targets ≡ false
        → Run
            (connect (used_timeout timeout_ms))
            targets
            n
            (start (worker_count max_concurrent targets) targets)
            s
        → all_returned s.workers ≡ true
        → Measures (write_results s.results)

  -- In whatever order the threads of measure_tcp_pings_json take their steps, the text that it
  -- returns is the text for the targets measured one after the other; the latency for the target
  -- with an index is what the connection for that index gives.
  pub Measures-answers :
      (text : Bytes)
      → Measures text
      → (targets : List TcpPingTarget) × (tcp_ping_targets_from_json D targets_json ≡ ok targets)
        × (text ≡ write_results (answers_from (connect (used_timeout timeout_ms)) 0 targets))
  Measures-answers _ (no_target e) =
      ([], e, unfold write_results result_rows answers_from array_text in refl)
  Measures-answers _ (joined targets n s e filled run ended) = (
    targets,
    e,
    ap write_results (
        Run-answers (connect (used_timeout timeout_ms)) targets
          (worker_count max_concurrent targets) n s (worker_count_lem max_concurrent targets filled)
          run ended),
  )

  -- x
  pub answers-Measures :
      (targets : List TcpPingTarget)
      → tcp_ping_targets_from_json D targets_json ≡ ok targets
      → Measures (write_results (answers_from (connect (used_timeout timeout_ms)) 0 targets))
  answers-Measures [] e = unfold write_results result_rows answers_from array_text in no_target e
  answers-Measures (t ∷ targets) e =
      let count = worker_count max_concurrent (t ∷ targets) in
      let run =
        Run-Finish (connect (used_timeout timeout_ms)) (t ∷ targets) count _ 0
          (start count (t ∷ targets)) (stay _) refl in
      by_run run
    where
      by_run :
          Finish
            (connect (used_timeout timeout_ms))
            (t ∷ targets)
            (worker_count max_concurrent (t ∷ targets))
          → Measures
              (write_results (answers_from (connect (used_timeout timeout_ms)) 0 (t ∷ targets)))
      by_run (n, s, run, ended) =
          let same =
            Run-answers (connect (used_timeout timeout_ms)) (t ∷ targets)
              (worker_count max_concurrent (t ∷ targets)) n s
              (worker_count_lem max_concurrent (t ∷ targets) refl) run ended in
          rw (← same) (joined (t ∷ targets) n s e refl run ended)
