-- ===== src/Scheduler/Run/Spending.antt =====
-- The budget of a run: the totals of `run_inner` (crates/fusion-scheduler/src/lib.rs) and the counters
-- of the envelope (crates/fusion-types/src/lib.rs).
pub mod Breaches
use fusion_router.Prelude.{
  ℕ, ◌≤◌, ◌<◌, ◌≡◌, ◌⊎◌, refl, sym, subst, ap, ◌∙◌, true, false, List, [], ◌∷◌, Option, none, some,
  arith, nat_eq, nat_beq, nat_beq_iff, All, Bool-cases, inl, inr, if◌then◌else◌,
}
use fusion_router.Prelude.Words.{u64_max, IsU64, saturating_add}
use fusion_router.Prelude.Maps.{Map, get, put, get-put}
use fusion_router.Money.{NanoUsd, saturating_add_usd}
use fusion_router.Budget.Envelope.{
  Envelope, BudgetExceeded, Outcome, ok, err, commit, record_and_check, increment_iteration,
}
use fusion_router.Scheduler.Graph.{
  NodeId, ExecutionNode, NodeState, is_terminal, skipped, failed, pending, running, succeeded,
}
use fusion_router.Scheduler.Run.{Run, Usage, ExecutionOutcome, Call}
use fusion_router.Scheduler.Run.Handle.{
  add_usage, cost_of, charge, account, refused, is_outstanding, skip_outstanding,
}
use fusion_router.Scheduler.Run.Loop.{
  Answer, finished, error, out_of_fuel, finish, conclude, initial, run_inner,
}
use fusion_router.Scheduler.Run.Moves.{
  Move, writes, counts, cascades, activates, resets, rearms, loops_to, Moves, done, step, Passage,
  all_passed, passed,
}
use fusion_router.Scheduler.Run.Turns.{Round, Left, Cut}
use fusion_router.Scheduler.Run.Answers.{Answered, sched_loop-Answered, initial-AtHead, AtHead}

-- The envelope has counted what the run has, besides what was spent before.
abbrev pub Counts : ℕ → Option Envelope → NanoUsd → Type 0
Counts before none total = Unit
Counts before (some e) total = e.spent_cost ≡ saturating_add before total.nanos

abbrev pub IsWithin : Envelope → Type 0
IsWithin e = (e.spent_cost ≤ e.max_cost.nanos) × (e.spent_tokens ≤ e.max_tokens)

abbrev pub Affords : Option Envelope → Type 0
Affords none = Unit
Affords (some e) = IsWithin e

iterations-same :
    (e : Envelope)
    → ((increment_iteration e).0.spent_cost ≡ e.spent_cost)
      × ((increment_iteration e).0.spent_tokens ≡ e.spent_tokens)
      × ((increment_iteration e).0.max_cost ≡ e.max_cost)
      × ((increment_iteration e).0.max_tokens ≡ e.max_tokens)
unfolding increment_iteration
iterations-same e = ground arith

checked-IsWithin :
    (e : Envelope) (cost : NanoUsd) (tokens : ℕ)
    → refused (record_and_check e cost tokens).1 ≡ none
    → IsWithin (record_and_check e cost tokens).0
unfolding record_and_check refused
checked-IsWithin e cost tokens h = ground arith

Counts-iterate :
    (before : ℕ) (e : Envelope) (total : NanoUsd)
    → Counts before (some e) total
    → Counts before (some (increment_iteration e).0) total
unfolding increment_iteration
Counts-iterate before e total h = ground arith

Affords-iterate : (e : Envelope) → IsWithin e → IsWithin (increment_iteration e).0
unfolding increment_iteration
Affords-iterate e h = (ground arith, ground arith)

-- A run against the envelope that it started with.
abbrev pub Funded : {V : Type 0} → Envelope → Run V → Type 0
Funded e r = Counts e.spent_cost r.envelope r.total_cost × (IsWithin e → Affords r.envelope)

-- The costs of an answer, for the outcomes.
abbrev AnswerCounts : {V : Type 0} → ℕ → Answer V → Type 0
AnswerCounts before (finished outcome envelope) = Counts before envelope outcome.total_cost
AnswerCounts before (error code) = Unit
AnswerCounts before out_of_fuel = Unit

module _ {V : Type 0} (c : Call V) where
  charge-Counts :
      (before : ℕ) (o : Option Envelope) (id : NodeId) (usage : Usage) (r : Run V)
      → r.envelope ≡ o
      → Counts before o r.total_cost
      → Counts before (charge c o id usage r).0.envelope (charge c o id usage r).0.total_cost
  unfolding charge add_usage record_and_check saturating_add_usd
  charge-Counts before none id usage r given h =
      subst (λ o. Counts before o (add_usage c id usage r).total_cost) (sym given) tt
  charge-Counts before (some e) id usage r given h = ground arith

  charge-Affords :
      (o : Option Envelope) (id : NodeId) (usage : Usage) (r : Run V)
      → r.envelope ≡ o
      → (charge c o id usage r).1 ≡ none
      → Affords (charge c o id usage r).0.envelope
  unfolding charge add_usage
  charge-Affords none id usage r given h = subst Affords (sym given) tt
  charge-Affords (some e) id usage r given h =
      checked-IsWithin e (cost_of c id usage) usage.total_tokens h

  account-Counts :
      (before : ℕ) (id : NodeId) (usage : Option Usage) (r : Run V)
      → Counts before r.envelope r.total_cost
      → Counts before (account c id usage r).0.envelope (account c id usage r).0.total_cost
  unfolding account
  account-Counts before id none r h = h
  account-Counts before id (some usage) r h = charge-Counts before r.envelope id usage r refl h

  account-Affords :
      (id : NodeId) (usage : Option Usage) (r : Run V)
      → (account c id usage r).1 ≡ none
      → Affords r.envelope
      → Affords (account c id usage r).0.envelope
  unfolding account
  account-Affords id none r within h = h
  account-Affords id (some usage) r within h = charge-Affords r.envelope id usage r refl within

  Move-Funded :
      (before : Envelope) (r m : Run V) → Move c.graph r m → Funded before r → Funded before m
  Move-Funded before r m (writes _ _ _) h = h
  Move-Funded before r m (counts _ e given) h =
      let counted : Counts before.spent_cost (some e) r.total_cost =
        subst (λ o. Counts before.spent_cost o r.total_cost) given h.0 in
      (
        Counts-iterate before.spent_cost e r.total_cost counted,
        λ w. Affords-iterate e (subst Affords given (h.1 w)),
      )
  Move-Funded before r m (cascades _ _) h = h
  Move-Funded before r m (activates _ _ _ _ _) h = h
  Move-Funded before r m (resets _ _ _ _) h = h
  Move-Funded before r m (rearms _ _ _ _) h = h
  Move-Funded before r m (loops_to _ _ _ _ _) h = h

  Moves-Funded :
      (before : Envelope) (r m : Run V) → Moves c.graph r m → Funded before r → Funded before m
  Moves-Funded before r m (done _) h = h
  Moves-Funded before r m (step first more) h =
      Moves-Funded before _ m more (Move-Funded before r _ first h)

  pub same-Funded :
      (before : Envelope) (r m : Run V)
      → m.total_cost ≡ r.total_cost
      → m.envelope ≡ r.envelope
      → Funded before r
      → Funded before m
  same-Funded before r m cost envelope h = rw (cost, envelope) h

  pub Passage-Funded :
      (before : Envelope) (seen : List NodeId) (r after : Run V)
      → Passage c seen r after
      → Funded before r
      → Funded before after
  Passage-Funded before seen r after (all_passed _) h = h
  Passage-Funded before seen r after (passed {m = m} {ids = ids} id usage within f more) h =
      let charged = (account c id usage r).0 in
      Passage-Funded before ids m after more (
        Moves-Funded before f.between m f.moves (
          same-Funded before charged f.between f.same_cost f.same_envelope (
            account-Counts before.spent_cost id usage r h.0,
            λ w. account-Affords id usage r within (h.1 w),
          )))

  Round-Funded :
      (before : Envelope) (r after : Run V)
      → AtHead c r
      → Funded before r
      → Round c r after
      → Funded before after
  Round-Funded before r after head h round =
      Passage-Funded before _ round.started after round.passage
        (same-Funded before r round.started round.launched.same_cost round.launched.same_envelope h)

  -- What an answer reports, from the last state of the run.
  reports :
      (r : Run V) (outcome : ExecutionOutcome V) (envelope : Option Envelope)
      → (Left c r (finished outcome envelope) ⊎ Cut c r (finished outcome envelope))
      → (e : Envelope) → Funded e r
      → Counts e.spent_cost envelope outcome.total_cost
  unfolding finish conclude
  reports r outcome envelope (inl l) e h =
      let start = same-Funded e r l.started l.same_cost l.same_envelope h in
      let last = Passage-Funded e l.seen l.started l.last l.passage start in
      subst (λ a. AnswerCounts e.spent_cost a) (sym l.answered) last.0
  reports r outcome envelope (inr l) e h =
      let start = same-Funded e r l.started l.same_cost l.same_envelope h in
      let b = l.breached in
      let before = Passage-Funded e b.passed_ids l.started b.before b.passage start in
      let charged = account-Counts e.spent_cost b.id b.usage b.before before.0 in
      subst (λ a. AnswerCounts e.spent_cost a) (sym l.answered)
        (rw (b.same_cost, b.same_envelope) charged)

  initial-Funded : (e : Envelope) → IsU64 e.spent_cost → Funded e (initial c (some e))
  unfolding initial
  initial-Funded e bound = (ground arith, λ w. w)

  -- The last state of a run that started with an envelope.
  pub run-Answered :
      (fuel : ℕ) (e after : Envelope) (outcome : ExecutionOutcome V)
      → IsU64 e.spent_cost
      → run_inner c fuel (some e) ≡ finished outcome (some after)
      → Answered c (Funded e) (finished outcome (some after))
  unfolding run_inner
  run-Answered fuel e after outcome bound answered = subst (Answered c (Funded e)) answered (
      sched_loop-Answered c (Funded e) (Round-Funded e) fuel 0 (initial c (some e))
        (initial-AtHead c (some e)) (initial-Funded e bound))

  -- The envelope's spend is what was spent before the run and the run's total, saturated at the
  -- largest u64, for every answer with an outcome, a breach's included. What was spent before fits
  -- u64.
  pub run_costs :
      (fuel : ℕ) (e after : Envelope) (outcome : ExecutionOutcome V)
      → IsU64 e.spent_cost
      → run_inner c fuel (some e) ≡ finished outcome (some after)
      → after.spent_cost ≡ saturating_add e.spent_cost outcome.total_cost.nanos
  run_costs fuel e after outcome bound answered =
      let (r, h, way) = run-Answered fuel e after outcome bound answered in
      reports r outcome (some after) way e h
