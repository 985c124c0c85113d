-- ===== src/Tests/Budget.antt =====
-- Budgets: the theorems on envelopes and managers at concrete inputs.
use fusion_router.Prelude.{ℕ, ◌≤◌, ◌≡◌, ◌≢◌, ◌↔◌, List, [], ◌∷◌, arith}
use fusion_router.Prelude.Words.{u64_max}
use fusion_router.Money.{NanoUsd}
use fusion_router.Budget.Envelope.{Envelope, ok, record_and_check}
use fusion_router.Budget.Envelope.Laws.{record_and_check_decides}
use fusion_router.Budget.Manager.{Meter, Call, reserve, give_back, serve_all}
use fusion_router.Budget.Manager.Default
use fusion_router.Budget.Manager.Laws.{Within, serve_all-Within}

abbrev spent_some : Envelope
spent_some = record {
  max_cost = record { nanos = 100 };
  max_tokens = 1000;
  max_iterations = 3;
  spent_cost = 60;
  spent_tokens = 500;
  current_iterations = 1;
}

abbrev fifty : NanoUsd
fifty = record { nanos = 50 }

abbrev calls : List (NanoUsd × ℕ)
calls = (fifty, 10) ∷ (fifty, 600) ∷ []

record_and_check_decides_example :
    ((record_and_check spent_some fifty 10).1 ≡ ok tt) ↔ ((110 ≤ 100) × (510 ≤ 1000))
record_and_check_decides_example =
    record_and_check_decides spent_some fifty 10 (omega arith) (omega arith)

refused : (record_and_check spent_some fifty 10).1 ≢ ok tt
unfolding record_and_check
refused h = cc

abbrev meter : Meter
meter = record {
  quota = record { max_daily_cost = record { nanos = 100 }; max_daily_tokens = 1000 };
  cost = 60;
  tokens = 500;
}

abbrev full_meter : Meter
full_meter = record meter { cost = u64_max }

abbrev served : List Call
served = reserve fifty 1 ∷ reserve (record { nanos = 40 }) 1 ∷ give_back fifty 9 ∷ []

serve_all-Within_example : Within (serve_all Default.manager meter served)
serve_all-Within_example =
    serve_all-Within meter served tt
      (record { cost_within = omega arith; tokens_within = omega arith })
