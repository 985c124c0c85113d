-- ===== src/Scheduler/Run/Spending/Breaches.antt =====
-- What a breach of the budget leaves: `run_inner` of crates/fusion-scheduler/src/lib.rs.
use fusion_router.Prelude.{
  ℕ, ◌≡◌, ◌⊎◌, refl, sym, subst, true, false, List, [], ◌∷◌, Option, none, some, arith, nat_eq,
  nat_beq, nat_beq_iff, All, Bool-cases, inl, inr, if◌then◌else◌,
}
use fusion_router.Prelude.Words.{IsU64}
use fusion_router.Prelude.Maps.{Map, get, put, get-put}
use fusion_router.Budget.Envelope.{Envelope}
use fusion_router.Scheduler.Graph.{
  NodeId, ExecutionNode, NodeState, is_terminal, pending, running, succeeded, skipped, failed,
}
use fusion_router.Scheduler.Run.{Run, ExecutionOutcome, Call}
use fusion_router.Scheduler.Run.Handle.{is_outstanding, skip_outstanding}
use fusion_router.Scheduler.Run.Loop.{
  Answer, finished, error, out_of_fuel, finish, conclude, run_inner,
}
use fusion_router.Scheduler.Run.Spending.{
  IsWithin, Affords, Funded, same-Funded, Passage-Funded, run-Answered,
}
use fusion_router.Scheduler.Run.Turns.{Left, Cut}

outstanding_or_terminal :
    (o : Option NodeState) → (is_outstanding o ≡ true) ⊎ (is_terminal o ≡ true)
unfolding is_outstanding
outstanding_or_terminal none = inl refl
outstanding_or_terminal (some pending) = inl refl
outstanding_or_terminal (some running) = inl refl
outstanding_or_terminal (some succeeded) = inr refl
outstanding_or_terminal (some skipped) = inr refl
outstanding_or_terminal (some (failed _)) = inr refl

abbrev Ends : Map NodeId NodeState → NodeId → Type 0
Ends states id = is_terminal (get id states) ≡ true

-- One node: it is terminal now, and who was terminal still is.
abbrev skip_one : ExecutionNode → Map NodeId NodeState → Map NodeId NodeState
skip_one n states = if is_outstanding (get n.id states) then put n.id skipped states else states

put-kept :
    (k id : NodeId) (states : Map NodeId NodeState)
    → Ends states id
    → Ends (put k skipped states) id
put-kept k id states h =
    rw (get-put k id skipped states)
      (elim (Bool-cases (nat_beq k id)) [ inl here ↦ rw here refl | inr there ↦ rw there h ])

skip_one-terminal :
    (n : ExecutionNode) (states : Map NodeId NodeState) → Ends (skip_one n states) n.id
skip_one-terminal n states = elim (Bool-cases (is_outstanding (get n.id states))) [
  | inl left ↦ rw left (ground (arith, get-put n.id n.id skipped states, nat_beq_iff n.id n.id))
  | inr over ↦ rw over (ground (arith, outstanding_or_terminal (get n.id states)))
]

skip_one-kept :
    (n : ExecutionNode) (states : Map NodeId NodeState) (id : NodeId)
    → Ends states id
    → Ends (skip_one n states) id
skip_one-kept n states id h = elim (Bool-cases (is_outstanding (get n.id states))) [
  | inl left ↦ rw left (put-kept n.id id states h)
  | inr over ↦ rw over h
]

skip-kept :
    (nodes : List ExecutionNode) (states : Map NodeId NodeState) (id : NodeId)
    → Ends states id
    → Ends (skip_outstanding nodes states) id
unfolding skip_outstanding
skip-kept [] states id h = h
skip-kept (n ∷ nodes) states id h =
    skip-kept nodes (skip_one n states) id (skip_one-kept n states id h)

skip_outstanding-Ends :
    (nodes : List ExecutionNode) (states : Map NodeId NodeState)
    → All (λ n. Ends (skip_outstanding nodes states) n.id) nodes
unfolding skip_outstanding
skip_outstanding-Ends [] states = tt
skip_outstanding-Ends (n ∷ nodes) states = (
  skip-kept nodes (skip_one n states) n.id (skip_one-terminal n states),
  skip_outstanding-Ends nodes (skip_one n states),
)

abbrev AnswerAffords : {V : Type 0} → Answer V → Type 0
AnswerAffords (finished outcome envelope) = Affords envelope
AnswerAffords (error code) = Unit
AnswerAffords out_of_fuel = Unit

-- Unsuccessful, and nothing is left outstanding.
abbrev Stopped : {V : Type 0} → List ExecutionNode → Answer V → Type 0
Stopped nodes (finished outcome envelope) =
    (outcome.success ≡ false) × All (λ n. Ends outcome.node_states n.id) nodes
Stopped nodes (error code) = Unit
Stopped nodes out_of_fuel = Unit

module _ {V : Type 0} (c : Call V) where
  Left-Affords :
      (e : Envelope) (r : Run V) (answer : Answer V)
      → IsWithin e
      → Funded e r
      → Left c r answer
      → AnswerAffords answer
  unfolding finish conclude
  Left-Affords e r answer w h l =
      let start = same-Funded c e r l.started l.same_cost l.same_envelope h in
      let last = Passage-Funded c e l.seen l.started l.last l.passage start in
      subst AnswerAffords (sym l.answered) (last.1 w)

  Cut-Stopped : (r : Run V) (answer : Answer V) → Cut c r answer → Stopped c.graph.nodes answer
  unfolding conclude
  Cut-Stopped r answer l = subst (Stopped c.graph.nodes) (sym l.answered) (
    refl,
    subst (λ states. All (λ n. Ends states n.id) c.graph.nodes) (sym l.breached.skips)
        (skip_outstanding-Ends c.graph.nodes l.breached.states),
  )

  -- A run that starts within its budget and leaves the envelope over its cost or token ceiling is not
  -- successful, and every node of the graph is succeeded, failed or skipped in its outcome. What was
  -- spent before fits u64.
  pub breach_stops :
      (fuel : ℕ) (e after : Envelope) (outcome : ExecutionOutcome V)
      → IsU64 e.spent_cost
      → IsWithin e
      → run_inner c fuel (some e) ≡ finished outcome (some after)
      → (IsWithin after → ⊥)
      → (outcome.success ≡ false)
        × All (λ n. is_terminal (get n.id outcome.node_states) ≡ true) c.graph.nodes
  breach_stops fuel e after outcome bound within answered over =
      let (r, h, way) = run-Answered c fuel e after outcome bound answered in
      elim way [
        | inl l ↦ absurd (over (Left-Affords e r (finished outcome (some after)) within h l))
        | inr l ↦ Cut-Stopped r (finished outcome (some after)) l
      ]
