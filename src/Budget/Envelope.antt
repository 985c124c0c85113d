-- ===== src/Budget/Envelope.antt =====
-- `BudgetEnvelope` of crates/fusion-types/src/lib.rs. All clones of an envelope share its counters,
-- so one record stands for them all. Each counter is updated by one atomic operation. A
-- call is modelled whole, as it runs when no other call interrupts it, and `Interleaved` runs the
-- atomic operations of several calls in any order.
pub mod Laws
pub mod Interleaved
use fusion_router.Prelude.{
  ℕ, zero, suc, ◌+◌, ◌≡◌, Bool, List, [], ◌∷◌, Option, none, some, ltb, leb, if◌then◌else◌, Text,
  codes, ◌++◌,
}
use fusion_router.Prelude.Words.{checked_add, saturating_add, saturating_sub}
use fusion_router.Money.{NanoUsd}
use fusion_router.Money.Decimal.{display}

pub record Envelope : Type 0 where
  pub max_cost : NanoUsd
  pub max_tokens : ℕ
  pub max_iterations : ℕ
  pub spent_cost : ℕ
  pub spent_tokens : ℕ
  pub current_iterations : ℕ

pub data BudgetExceeded : Type 0 where
  cost_exceeded : ℕ → ℕ → BudgetExceeded
  tokens_exceeded : ℕ → ℕ → BudgetExceeded
  iterations_exceeded : ℕ → ℕ → BudgetExceeded

unfoldable pub breach_message : BudgetExceeded → Text
breach_message (cost_exceeded spent max) =
    codes "Cost budget exceeded: "
    ++ (display spent ++ (codes " nano-USD spent, " ++ (display max ++ codes " nano-USD max")))
breach_message (tokens_exceeded spent max) =
    codes "Token budget exceeded: "
    ++ (display spent ++ (codes " tokens spent, " ++ (display max ++ codes " max")))
breach_message (iterations_exceeded current max) =
    codes "Iteration budget exceeded: "
    ++ (display current ++ (codes " iterations, " ++ (display max ++ codes " max")))

pub data Outcome (A : Type 0) : Type 0 where
  ok : A → Outcome A
  err : BudgetExceeded → Outcome A

unfoldable pub new : NanoUsd → ℕ → ℕ → Envelope
new max_cost max_tokens max_iterations = record {
  max_cost = max_cost;
  max_tokens = max_tokens;
  max_iterations = max_iterations;
  spent_cost = 0;
  spent_tokens = 0;
  current_iterations = 0;
}

-- Each counter is raised by one atomic update, whatever the ceilings say.
abbrev pub add_cost : Envelope → NanoUsd → Envelope
add_cost e cost = record e { spent_cost = saturating_add e.spent_cost cost.nanos }

abbrev pub add_tokens : Envelope → ℕ → Envelope
add_tokens e tokens = record e { spent_tokens = saturating_add e.spent_tokens tokens }

-- The counters after both updates.
unfoldable pub commit : Envelope → NanoUsd → ℕ → Envelope
commit e cost tokens = add_tokens (add_cost e cost) tokens

abbrev pub overflows : ℕ → ℕ → Bool
overflows a b = elim (checked_add a b) [ none ↦ Bool.true | some _ ↦ Bool.false ]

-- What a call answers, by what its updates found and by the counters that it loads after them.
abbrev pub enforce : Envelope → ℕ → NanoUsd → ℕ → ℕ → ℕ → ℕ → Outcome (Unit {0})
enforce e prev_cost cost prev_tokens tokens new_cost new_tokens =
    if overflows prev_cost cost.nanos
    then err (cost_exceeded new_cost e.max_cost.nanos)
    else if ltb e.max_cost.nanos new_cost
    then err (cost_exceeded new_cost e.max_cost.nanos)
    else if overflows prev_tokens tokens
    then err (tokens_exceeded new_tokens e.max_tokens)
    else if ltb e.max_tokens new_tokens
    then err (tokens_exceeded new_tokens e.max_tokens)
    else ok tt

-- A call that no other call of a clone interrupts.
unfoldable pub record_and_check : Envelope → NanoUsd → ℕ → Envelope × Outcome (Unit {0})
unfolding commit
record_and_check e cost tokens =
    let after = commit e cost tokens in
    (after, enforce e e.spent_cost cost e.spent_tokens tokens after.spent_cost after.spent_tokens)

unfoldable pub reconcile_refund : Envelope → NanoUsd → ℕ → Envelope
reconcile_refund e cost tokens = record e {
  spent_cost = saturating_sub e.spent_cost cost.nanos;
  spent_tokens = saturating_sub e.spent_tokens tokens;
}

unfoldable pub increment_iteration : Envelope → Envelope × Outcome ℕ
increment_iteration e =
    if leb e.max_iterations e.current_iterations
    then (e, err (iterations_exceeded (e.current_iterations + 1) e.max_iterations))
    else (record e { current_iterations = e.current_iterations + 1 }, ok (e.current_iterations + 1))

-- The calls of all clones, in the order in which the counters see them.
pub record_all : Envelope → List (NanoUsd × ℕ) → Envelope
record_all e [] = e
record_all e ((cost, tokens) ∷ calls) = record_all (record_and_check e cost tokens).0 calls

pub increments : ℕ → Envelope → Envelope
increments zero e = e
increments (suc n) e = increments n (increment_iteration e).0
