-- ===== src/Ping/Runs.antt =====
-- What the workers leave when they have returned, in whatever order they take their steps.
pub mod Slots
pub mod Crew
use entropy_vpn.Base.{
  ℕ, zero, suc, ◌+◌, ◌-◌, ◌*◌, ◌≤◌, ◌<◌, Bool, true, false, ◌||◌, ◌==◌, ltb, List, [], ◌∷◌, ◌++◌,
  Option, none, some, ℤ, ◌≡◌, ◌⊎◌, inl, inr, refl, sym, ap, ◌∙◌, length, length-append,
  if◌then◌else◌, arith, Bool-cases, Option-cases,
}
use entropy_vpn.Ping.Runs.Crew.{
  held, holding, holding-append, has_left, any_returned, any_returned-append, weight, weights,
  weights-append, holding_replaced, weights_replaced, any_returned_replaced, length-repeat,
  holding-repeat, weights-repeat, any_returned-repeat, all_returned-holding, all_returned-any,
  HasOther, all_returned-HasOther, worker_between,
}
use entropy_vpn.Ping.Runs.Slots.{slot-store, slot-store_other, length-store, slot_ext, slot-some}
use entropy_vpn.Ping.Workers.{
  Worker, ready, measuring, returned, Pool, slot, store, repeat, start, Step, take, leave, measure,
  Run, stay, step, all_returned, answers_from,
}
use entropy_vpn.Ping.{TcpPingTarget, TcpPingResult, new_result, result_of}

module _ (connect : ℕ → Option ℤ) (targets : List TcpPingTarget) where
  abbrev pub todo : Pool → ℕ
  todo s = 2 * (length targets - s.next_index) + weights s.workers

  pub record IsRun (s : Pool) : Type 0 where
    pub sized : length s.results ≡ length targets
    pub stored :
        (i : ℕ)
        → i < s.next_index
        → i < length targets
        → holding i s.workers ≡ 0
        → slot i s.results ≡ slot i (answers_from connect 0 targets)
    pub exhausted : any_returned s.workers ≡ true → length targets ≤ s.next_index
    pub single : (i : ℕ) → holding i s.workers ≤ 1
    pub fresh : (i : ℕ) → s.next_index ≤ i → holding i s.workers ≡ 0
    pub within : (i : ℕ) → length targets ≤ i → holding i s.workers ≡ 0

  slot-answers_from :
      (first i : ℕ) (ts : List TcpPingTarget) (target : TcpPingTarget)
      → slot i ts ≡ some target
      → slot i (answers_from connect first ts) ≡ some (result_of target (connect (first + i)))
  unfolding slot answers_from
  slot-answers_from first i [] target h = ground arith
  slot-answers_from first zero (t ∷ ts) target h =
      let same : first + 0 ≡ first = omega arith in
      rw same (ap (λ o. elim o [ none ↦ none | some x ↦ some (result_of x (connect first)) ]) h)
  slot-answers_from first (suc i) (t ∷ ts) target h =
      let same : suc first + i ≡ first + suc i = omega arith in
      slot-answers_from (suc first) i ts target h
      ∙ ap (λ n. some (result_of target (connect n))) same

  length-answers_from :
      (first : ℕ) (ts : List TcpPingTarget) → length (answers_from connect first ts) ≡ length ts
  unfolding answers_from
  length-answers_from first [] = refl
  length-answers_from first (t ∷ ts) = ap suc (length-answers_from (suc first) ts)

  module _ (next : ℕ) (before after : List Worker) (results : List TcpPingResult) where
    abbrev pool_with : ℕ → Worker → List TcpPingResult → Pool
    pool_with n w rs = record { next_index = n; workers = before ++ w ∷ after; results = rs }

    take-IsRun :
        next < length targets
        → IsRun (pool_with next ready results)
        → IsRun (pool_with (suc next) (measuring next) results)
    take-IsRun few run =
        let change = λ (i : ℕ). holding_replaced i before after ready (measuring next) in
        record {
          sized = run.sized;
          stored = λ i early inside none_holds.
              let c = change i in
              run.stored i (grind (arith, c, none_holds, early)) inside
                (grind (arith, c, none_holds));
          exhausted = λ h.
              let old =
                run.exhausted (any_returned_replaced before after ready (measuring next) refl h) in
              omega (arith, old);
          single = λ i.
              let c = change i in
              let s = run.single i in let f = run.fresh i in grind (arith, c, s, f);
          fresh = λ i late. let c = change i in let f = run.fresh i in grind (arith, c, f, late);
          within = λ i outside.
              let c = change i in let f = run.within i outside in grind (arith, c, f, outside, few);
        }

    leave-IsRun :
        length targets ≤ next
        → IsRun (pool_with next ready results)
        → IsRun (pool_with (suc next) returned results)
    leave-IsRun none_left run =
        let change = λ (i : ℕ). holding_replaced i before after ready returned in
        record {
          sized = run.sized;
          stored = λ i early inside none_holds.
              let c = change i in
              run.stored i (omega (arith, inside, none_left)) inside (omega (arith, c, none_holds));
          exhausted = λ h. omega (arith, none_left);
          single = λ i. let c = change i in let s = run.single i in omega (arith, c, s);
          fresh = λ i late.
              let c = change i in let f = run.fresh i (omega (arith, late)) in omega (arith, c, f);
          within =
              λ i outside. let c = change i in let f = run.within i outside in omega (arith, c, f);
        }

    measure-IsRun :
        (index : ℕ) (target : TcpPingTarget)
        → slot index targets ≡ some target
        → IsRun (pool_with next (measuring index) results)
        → IsRun (pool_with next ready (store index (result_of target (connect index)) results))
    measure-IsRun index target found run =
        let change = λ (i : ℕ). holding_replaced i before after (measuring index) ready in
        record {
          sized = length-store index _ results ∙ run.sized;
          stored = λ i early inside none_holds. elim (Bool-cases (index == i)) [
            | inl same ↦
                let one : index ≡ i = grind (arith, same) in
                ap (λ j. slot i (store j (result_of target (connect j)) results)) one
                ∙ slot-store i (result_of target (connect i)) results
                    (omega (arith, inside, run.sized))
                ∙ sym (
                    slot-answers_from 0 i targets target
                      (ap (λ j. slot j targets) (sym one) ∙ found)
                    ∙ ap (λ n. some (result_of target (connect n))) (omega arith))
            | inr other ↦
                let c = change i in
                slot-store_other index i _ results (grind (arith, other))
                ∙ run.stored i early inside (grind (arith, c, other, none_holds))
          ];
          exhausted = λ h.
              run.exhausted (any_returned_replaced before after (measuring index) ready refl h);
          single = λ i. let c = change i in let s = run.single i in omega (arith, c, s);
          fresh = λ i late. let c = change i in let f = run.fresh i late in omega (arith, c, f);
          within =
              λ i outside. let c = change i in let f = run.within i outside in omega (arith, c, f);
        }

  start-IsRun : (worker_count : ℕ) → IsRun (start worker_count targets)
  unfolding start
  start-IsRun worker_count = record {
    sized = length-repeat (length targets) new_result;
    stored = λ i early inside none_holds. ground arith;
    exhausted = λ h. let off = any_returned-repeat worker_count in ground arith;
    single = λ i. let none_holds = holding-repeat i worker_count in omega (arith, none_holds);
    fresh = λ i late. holding-repeat i worker_count;
    within = λ i outside. holding-repeat i worker_count;
  }

  Step-IsRun : (s t : Pool) → Step connect targets s t → IsRun s → IsRun t
  Step-IsRun _ _ (take next before after results few) run =
      take-IsRun next before after results few run
  Step-IsRun _ _ (leave next before after results none_left) run =
      leave-IsRun next before after results none_left run
  Step-IsRun _ _ (measure next index target before after results found) run =
      measure-IsRun next before after results index target found run

  Run-IsRun : (n : ℕ) (s t : Pool) → Run connect targets n s t → IsRun s → IsRun t
  Run-IsRun _ _ _ (stay s) run = run
  Run-IsRun _ _ _ (step n s t u before last) run = Step-IsRun t u last (Run-IsRun n s t before run)

  -- At every moment of every run of the threads, at most one thread is at the target with a given
  -- index, so that no two of them write one result.
  pub Run-single :
      (worker_count n : ℕ) (s : Pool)
      → Run connect targets n (start worker_count targets) s
      → (i : ℕ) → holding i s.workers ≤ 1
  Run-single worker_count n s steps i =
      (Run-IsRun n (start worker_count targets) s steps (start-IsRun worker_count)).single i

  pub Step-todo : (s t : Pool) → Step connect targets s t → todo s ≡ suc (todo t)
  Step-todo _ _ (take next before after results few) =
      let w = weights_replaced before after ready (measuring next) in omega (arith, w, few)
  Step-todo _ _ (leave next before after results none_left) =
      let w = weights_replaced before after ready returned in omega (arith, w, none_left)
  Step-todo _ _ (measure next index target before after results found) =
      let w = weights_replaced before after (measuring index) ready in omega (arith, w)

  Run-todo : (n : ℕ) (s t : Pool) → Run connect targets n s t → n + todo t ≡ todo s
  Run-todo _ _ _ (stay s) = omega arith
  Run-todo _ _ _ (step n s t u before last) =
      let first = Run-todo n s t before in let one = Step-todo t u last in omega (arith, first, one)

  -- Every run of the threads has at most two steps for each target and one for each thread.
  pub Run-bounded :
      (worker_count n : ℕ) (s : Pool)
      → Run connect targets n (start worker_count targets) s
      → n ≤ 2 * length targets + worker_count
  unfolding start
  Run-bounded worker_count n s steps =
      let total = Run-todo n (start worker_count targets) s steps in
      let w = weights-repeat worker_count in omega (arith, total, w)

  Run-workers :
      (n : ℕ) (s t : Pool) → Run connect targets n s t → 0 < length s.workers → 0 < length t.workers
  Run-workers _ _ _ (stay s) h = h
  Run-workers _ _ _ (step n s t _ runs (take next before after results few)) h =
      worker_between before after (measuring next)
  Run-workers _ _ _ (step n s t _ runs (leave next before after results none_left)) h =
      worker_between before after returned
  Run-workers _ _ _ (step n s t _ runs (measure next index target before after results found)) h =
      worker_between before after ready

  -- x
  pub Run-answers :
      (worker_count n : ℕ) (s : Pool)
      → 0 < worker_count
      → Run connect targets n (start worker_count targets) s
      → all_returned s.workers ≡ true
      → s.results ≡ answers_from connect 0 targets
  Run-answers worker_count n s some_worker steps joined =
      let run = Run-IsRun n (start worker_count targets) s steps (start-IsRun worker_count) in
      let crew =
        Run-workers n (start worker_count targets) s steps
          (unfold start in omega (arith, some_worker, length-repeat worker_count ready)) in
      let all_taken = run.exhausted (all_returned-any s.workers crew joined) in
      slot_ext s.results (answers_from connect 0 targets)
        (run.sized ∙ sym (length-answers_from 0 targets))
        (λ i inside.
          let small : i < length targets = omega (arith, inside, run.sized) in
          run.stored i (omega (arith, small, all_taken)) small
            (all_returned-holding i s.workers joined))

  next_step :
      (next : ℕ) (before : List Worker) (w : Worker) (after : List Worker)
      (results : List TcpPingResult)
      → has_left w ≡ false
      → IsRun (record { next_index = next; workers = before ++ w ∷ after; results = results })
      → (t : Pool) × Step connect targets
          (record { next_index = next; workers = before ++ w ∷ after; results = results })
          t
  next_step next before ready after results other run =
      elim (Bool-cases (ltb next (length targets))) [
        | inl more ↦ (_, take next before after results (grind (arith, more)))
        | inr no_more ↦ (_, leave next before after results (grind (arith, no_more)))
      ]
  next_step next before (measuring index) after results other run =
      let inside : index < length targets = elim (Bool-cases (ltb index (length targets))) [
        | inl small ↦ grind (arith, small)
        | inr big ↦
            let none_holds = run.within index (grind (arith, big)) in
            let c = holding_replaced index before after ready (measuring index) in
            grind (arith, c, none_holds)
      ] in
      let (target, found) = slot-some index targets inside in
      (_, measure next index target before after results found)
  next_step next before returned after results other run = ground arith

  -- As long as a thread has not returned, the pool has a next step, so that no run gets stuck.
  pub Run-progress :
      (worker_count n : ℕ) (s : Pool)
      → Run connect targets n (start worker_count targets) s
      → all_returned s.workers ≡ false
      → (t : Pool) × Step connect targets s t
  Run-progress worker_count n s steps unfinished =
      let run = Run-IsRun n (start worker_count targets) s steps (start-IsRun worker_count) in
      let (before, w, after, other, e) = all_returned-HasOther s.workers unfinished in
      go s.next_index s.results s.workers before w after other e run
    where
      go :
          (next : ℕ) (results : List TcpPingResult) (workers before : List Worker) (w : Worker)
          (after : List Worker)
          → has_left w ≡ false
          → workers ≡ before ++ w ∷ after
          → IsRun (record { next_index = next; workers = workers; results = results })
          → (t : Pool) × Step connect targets
              (record { next_index = next; workers = workers; results = results })
              t
      go next results workers before w after other e run =
          rw e (next_step next before w after results other (rw e at run))
