-- ===== src/Tests/Pings.antt =====
-- Runs of the workers.
use entropy_vpn.Base.{
  ℕ, true, false, List, [], ◌∷◌, Option, some, Bytes, codes, ◌≡◌, ◌≤◌, refl, ℤ, pos, arith, length,
  ◌+◌, ◌*◌, bytes_eq,
}
use entropy_vpn.Config.Matchers.{bytes_lt}
use entropy_vpn.Json.Parser.{
  string_body, expect, parse_string, numeric_run, parse_number, parse_object, parse_array, value_at,
  after_member, member_at, after_item, item_at, parse_value, parse,
}
use entropy_vpn.Json.Value.{at, find_member, assign_member, number_text, string_value, int_value}
use entropy_vpn.Number.{parse_int}
use entropy_vpn.Ping.Output.{Measures, Measures-answers, answers-Measures}
use entropy_vpn.Ping.Runs.Crew.{holding}
use entropy_vpn.Ping.Runs.{Run-single, Run-bounded, Run-answers, Run-progress}
use entropy_vpn.Ping.Workers.{
  Worker, ready, measuring, returned, Pool, slot, store, repeat, start, Step, take, leave, measure,
  Run, stay, step, all_returned, answers_from,
}
use entropy_vpn.Ping.{
  TcpPingTarget, TcpPingResult, new_result, result_of, can_ping, targets_of,
  tcp_ping_targets_from_json, used_timeout, write_results,
}
use entropy_vpn.Result.{ok}
use entropy_vpn.Tests.Trees.{whole}
use entropy_vpn.Text.{trim, trim_start}

abbrev one_target : TcpPingTarget
one_target = record {
  profile_index = pos 0;
  profile_key = codes "k";
  host = codes "h";
  port = pos 443;
}

-- The only connection takes 25 milliseconds.
abbrev quick : ℕ → Option ℤ
quick i = some (pos 25)

abbrev targets : List TcpPingTarget
targets = one_target ∷ []

abbrev pool : ℕ → Worker → List TcpPingResult → Pool
pool n w results = record { next_index = n; workers = w ∷ []; results = results }

abbrev taken : Pool
taken = pool 1 (measuring 0) (new_result ∷ [])

abbrev measured : Pool
measured = pool 1 ready (result_of one_target (some (pos 25)) ∷ [])

abbrev ended : Pool
ended = pool 2 returned (result_of one_target (some (pos 25)) ∷ [])

Run-taken : Run quick targets 1 (start 1 targets) taken
unfolding start repeat
Run-taken = step 0 _ _ _ (stay (start 1 targets)) (take 0 [] [] (new_result ∷ []) (omega arith))

Run-ended : Run quick targets 3 (start 1 targets) ended
unfolding slot store
Run-ended =
    step 2 _ _ _ (step 1 _ _ _ Run-taken (measure 1 0 one_target [] [] (new_result ∷ []) refl))
      (leave 1 [] [] (result_of one_target (some (pos 25)) ∷ []) (omega arith))

Run-single_example : holding 0 taken.workers ≤ 1
Run-single_example = Run-single quick targets 1 1 taken Run-taken 0

Run-bounded_example : 3 ≤ 2 * length targets + 1
Run-bounded_example = Run-bounded quick targets 1 3 ended Run-ended

ended_returned : all_returned ended.workers ≡ true
unfolding all_returned
ended_returned = refl

Run-answers_example : ended.results ≡ answers_from quick 0 targets
Run-answers_example = Run-answers quick targets 1 3 ended (omega arith) Run-ended ended_returned

taken_unfinished : all_returned taken.workers ≡ false
unfolding all_returned
taken_unfinished = refl

Run-progress_example : (t : Pool) × Step quick targets taken t
Run-progress_example = Run-progress quick targets 1 1 taken Run-taken taken_unfinished

abbrev targets_text : Bytes
targets_text =
    codes
      "[{\"profileIndex\":0,\"profileKey\":\"k\",\"host\":\" h\",\"port\":443},7,{\"host\":\"x\",\"port\":0}]"

targets_run : tcp_ping_targets_from_json whole targets_text ≡ ok targets
unfolding tcp_ping_targets_from_json targets_of can_ping parse parse_value value_at member_at
    item_at after_member after_item parse_object parse_array parse_string string_body expect
    numeric_run parse_number trim trim_start at find_member assign_member bytes_lt bytes_eq
    string_value int_value number_text parse_int
targets_run = refl

abbrev quick_timeout : ℤ → ℕ → Option ℤ
quick_timeout timeout i = some (pos 25)

answers-Measures_example :
    Measures whole quick_timeout targets_text
      (pos 500)
      (pos 8)
      (write_results (answers_from (quick_timeout (used_timeout (pos 500))) 0 targets))
answers-Measures_example =
    answers-Measures whole quick_timeout targets_text (pos 500) (pos 8) targets targets_run

one_call :
    Measures whole quick_timeout targets_text
      (pos 500)
      (pos 8)
      (write_results (answers_from (quick_timeout (used_timeout (pos 500))) 0 targets))
one_call = answers-Measures whole quick_timeout targets_text (pos 500) (pos 8) targets targets_run

Measures-answers_example :
    (given : List TcpPingTarget) × (tcp_ping_targets_from_json whole targets_text ≡ ok given)
    × (write_results (answers_from (quick_timeout (used_timeout (pos 500))) 0 targets)
        ≡ write_results (answers_from (quick_timeout (used_timeout (pos 500))) 0 given))
Measures-answers_example =
    Measures-answers whole quick_timeout targets_text (pos 500) (pos 8) _ one_call
