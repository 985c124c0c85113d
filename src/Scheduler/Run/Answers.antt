-- ===== src/Scheduler/Run/Answers.antt =====
-- The answers of a whole run: `run_inner` of crates/fusion-scheduler/src/lib.rs.
use fusion_router.Prelude.{
  ℕ, zero, suc, ◌≡◌, ◌⊎◌, refl, subst, ◌∙◌, true, false, Option, arith, nat_eq, Bool-cases, Text,
  inl, inr,
}
use fusion_router.Prelude.Sets.{contains}
use fusion_router.Budget.Envelope.{Envelope}
use fusion_router.Scheduler.Graph.{NodeId}
use fusion_router.Scheduler.Queue.{new, with_max_concurrent_nodes}
use fusion_router.Scheduler.Queue.Frame.{static}
use fusion_router.Scheduler.Queue.Select.{any_in_progress}
use fusion_router.Scheduler.Run.{Run, Call}
use fusion_router.Scheduler.Run.Idle.{Passage-NoNew, none_in_progress}
use fusion_router.Scheduler.Run.Loop.{
  Answer, finished, error, out_of_fuel, Turn, goes_on, returns, turn, sched_loop, initial,
  run_inner, is_cancelled, cancelled_code,
}
use fusion_router.Scheduler.Run.Passages.{static-Passage}
use fusion_router.Scheduler.Run.Settle.{Fixed, edges_of}
use fusion_router.Scheduler.Run.Turns.{Round, Left, Cut, Turned, turn-Turned}

-- The runs at the loop's head.
pub data AtRound {V : Type 0} (c : Call V) (envelope : Option Envelope) : ℕ → Run V → Type 0 where
  first_round : AtRound c envelope 0 (initial c envelope)
  next_round :
      {round : ℕ} {r after : Run V}
      → AtRound c envelope round r
      → turn c round r ≡ goes_on after
      → AtRound c envelope (suc round) after

module _ {V : Type 0} (c : Call V) where
  -- What holds at the loop's head: no node is in progress.
  pub record AtHead (r : Run V) : Type 0 where
    pub fixed : Fixed c.graph r.queue
    pub idle : (v : NodeId) → contains r.queue.in_progress v ≡ false

  pub initial-AtHead : (envelope : Option Envelope) → AtHead (initial c envelope)
  unfolding initial with_max_concurrent_nodes new contains
  initial-AtHead envelope = record { fixed = (refl, refl, refl); idle = λ v. refl }

  pub Round-static : (r after : Run V) → Round c r after → static after.queue ≡ static r.queue
  Round-static r after h = static-Passage c _ h.started after h.passage ∙ h.launched.statics

  pub Round-AtHead : (r after : Run V) → AtHead r → Round c r after → AtHead after
  Round-AtHead r after head h = record {
    fixed = edges_of c.graph r.queue after.queue (Round-static r after h) head.fixed;
    idle = λ v. elim (Bool-cases (contains after.queue.in_progress v)) [
      | inr absent ↦ absent
      | inl present ↦
          let early = Passage-NoNew c _ h.started after v h.passage present in
          absurd (ground (arith, h.launched.busy v early.0, early.1, head.idle v))
    ];
  }

  pub AtRound-Round :
      (round : ℕ) (r after : Run V) → AtHead r → turn c round r ≡ goes_on after → Round c r after
  AtRound-Round round r after head e =
      subst (Turned c round r) e (turn-Turned c round r head.fixed head.idle)

  pub AtRound-AtHead :
      (envelope : Option Envelope) (round : ℕ) (r : Run V) → AtRound c envelope round r → AtHead r
  AtRound-AtHead envelope round r first_round = initial-AtHead envelope
  AtRound-AtHead envelope round after (next_round {round = k} {r = r} before e) =
      let head = AtRound-AtHead envelope k r before in
      Round-AtHead r after head (AtRound-Round k r after head e)

  -- Whenever a round begins, on any graph, no node is in progress, so the loop never polls for nodes
  -- in flight.
  pub never_polls :
      (envelope : Option Envelope) (round : ℕ) (r : Run V)
      → AtRound c envelope round r
      → any_in_progress r.queue ≡ false
  never_polls envelope round r at_round =
      none_in_progress r.queue (AtRound-AtHead envelope round r at_round).idle

  -- A property of the runs at the loop's head holds at the last one.
  abbrev pub Answered : (Run V → Type 0) → Answer V → Type 0
  Answered I (finished outcome envelope) =
      (r : Run V) × I r
      × (Left c r (finished outcome envelope) ⊎ Cut c r (finished outcome envelope))
  Answered I (error code) = (code ≡ cancelled_code) × (round : ℕ) × (is_cancelled c round ≡ true)
  Answered I out_of_fuel = Unit

  module _ (I : Run V → Type 0)
      (kept_by_rounds : (r after : Run V) → AtHead r → I r → Round c r after → I after) where
    pub sched_loop-Answered :
        (fuel round : ℕ) (r : Run V) → AtHead r → I r → Answered I (sched_loop c fuel round r)
    unfolding sched_loop
    sched_loop-Answered zero round r head h = tt
    sched_loop-Answered (suc fuel) round r head h =
        go (turn c round r) (turn-Turned c round r head.fixed head.idle)
          (λ after a i. sched_loop-Answered fuel (suc round) after a i)
      where
        go :
            (t : Turn V)
            → Turned c round r t
            → ((after : Run V)
                → AtHead after
                → I after
                → Answered I (sched_loop c fuel (suc round) after))
            → Answered I (elim t [
              | goes_on after ↦ sched_loop c fuel (suc round) after
              | returns answer ↦ answer
            ])
        go (goes_on after) turned later =
            later after (Round-AtHead r after head turned) (kept_by_rounds r after head h turned)
        go (returns (finished outcome envelope)) turned later = (r, h, turned)
        go (returns (error code)) turned later = (turned.0, round, turned.1)
        go (returns out_of_fuel) turned later = absurd turned

  -- A run returns no error but `CANCELLED`, and that one only if the token was seen as cancelled at
  -- the head of the loop in some round; so an id is never missing from the graph, on any graph and
  -- with any fuel.
  pub only_cancellation_fails :
      (fuel : ℕ) (envelope : Option Envelope) (code : Text)
      → run_inner c fuel envelope ≡ error code
      → (code ≡ cancelled_code) × (round : ℕ) × (is_cancelled c round ≡ true)
  unfolding run_inner
  only_cancellation_fails fuel envelope code e = subst (Answered (λ _. Unit)) e (
      sched_loop-Answered (λ _. Unit) (λ _ _ _ _ _. tt) fuel 0 (initial c envelope)
        (initial-AtHead envelope) tt)
