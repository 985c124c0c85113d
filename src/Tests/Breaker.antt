-- ===== src/Tests/Breaker.antt =====
-- The circuit breaker: the theorems at concrete histories.
use fusion_router.Prelude.{◌≡◌, refl, false, List, [], ◌∷◌, some, none, arith, All, ◌⊎◌}
use fusion_router.Breaker.{
  CircuitBreaker, closed, opened, Event, fails_at, answers, gone, completion, Provider, admitted,
  rejected, Action, completes, streams, arrives, adjusts, new, can_execute, record_failure,
  record_success, handle, handle_all, begin, chat_completion, arrive, resume, after_completion, act,
}
use fusion_router.Breaker.Runs.{Report, success, failure, HasRun}
use fusion_router.Breaker.Trips.{report_all, opens_after_run, Recovers, open-Recovers}
use fusion_router.Breaker.Probes.{replies, lost_probe_blocks}

abbrev fresh : CircuitBreaker
fresh = record {
  failure_threshold = 3;
  success_threshold = 2;
  cooldown_secs = 5;
  state = closed;
  failure_count = 0;
  success_count = 0;
  last_failure_time = none;
  probe_in_flight = false;
}

-- A success between keeps the circuit closed, three failures in a row then open it.
abbrev reports : List Report
reports = failure 1 ∷ failure 2 ∷ success ∷ failure 3 ∷ failure 4 ∷ failure 5 ∷ success ∷ []

opens_after_run_example :
    (((report_all (new 3 2 5) reports).state ≡ opened) × HasRun 3 reports)
    ⊎ (((report_all (new 3 2 5) reports).state ≡ closed) × (HasRun 3 reports → ⊥))
opens_after_run_example = opens_after_run 3 2 5 reports (omega arith) (omega arith)

is_opened_by_run : (report_all (new 3 2 5) reports).state ≡ opened
unfolding new record_failure record_success
is_opened_by_run = refl

abbrev three_failures : List Event
three_failures = fails_at 1 ∷ fails_at 2 ∷ fails_at 3 ∷ []

is_open : (handle_all (new 3 2 5) three_failures).state ≡ opened
unfolding handle_all handle new record_failure
is_open = refl

open-Recovers_example : Recovers (handle_all (new 3 2 5) three_failures)
open-Recovers_example = open-Recovers 3 2 5 three_failures is_open

abbrev tripped : CircuitBreaker
tripped = record fresh { state = opened; failure_count = 3; last_failure_time = some 3 }

abbrev idle : Provider
idle = record { breaker = tripped; calls = [] }

abbrev afterwards : List Action
afterwards =
    completes 7_000_000_000
    ∷ arrives 0 answers
    ∷ streams 90_000_000_000
    ∷ adjusts 9 0
    ∷ completes 95_000_000_000
    ∷ []

lost_probe_blocks_example :
    ((begin idle 6_000_000_000 completion).1 ≡ admitted)
    × All
        (λ r. r ≡ rejected)
        (replies (act (begin idle 6_000_000_000 completion).0 (arrives 0 gone)).0 afterwards)
lost_probe_blocks_example =
    lost_probe_blocks idle 6_000_000_000 3 completion afterwards refl refl (omega arith) refl
      (refl, (refl, (refl, (refl, (refl, tt)))))

-- A call admitted before the circuit opened, and answered after the probe was dropped, frees it.
abbrev busy : Provider
busy = record { breaker = tripped; calls = completion ∷ [] }

late_answer_frees :
    replies busy
      (completes 6_000_000_000 ∷ arrives 0 gone ∷ arrives 0 answers ∷ completes 7_000_000_000 ∷ [])
    ≡ admitted ∷ admitted ∷ []
unfolding act chat_completion begin can_execute arrive resume after_completion record_success
late_answer_frees = refl
