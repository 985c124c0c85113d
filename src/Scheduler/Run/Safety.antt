-- ===== src/Scheduler/Run/Safety.antt =====
-- Who is dispatched on a graph without loops: `run_inner` of crates/fusion-scheduler/src/lib.rs drives
-- its queue by the steps of `Scheduler.Queue.Steps`.
use fusion_router.Prelude.{
  ℕ, ◌≡◌, sym, subst, ap, true, false, List, [], ◌∷◌, Option, arith, nat_eq, pair_eq, All,
  Bool-cases, inl, inr,
}
use fusion_router.Prelude.Sets.{contains}
use fusion_router.Prelude.Maps.{Map}
use fusion_router.Budget.Envelope.{Envelope}
use fusion_router.Scheduler.Graph.{NodeId, ExecutionNode, ExecutionGraph, NodeState}
use fusion_router.Scheduler.Queue.{WorkQueue, new}
use fusion_router.Scheduler.Queue.Backs.{loop_heads, back_edges_lem}
use fusion_router.Scheduler.Queue.Build.{pairs}
use fusion_router.Scheduler.Queue.Dispatch.{get_ready_lem}
use fusion_router.Scheduler.Queue.Ready.{dependency_safety}
use fusion_router.Scheduler.Queue.Select.{dispatchable, get_ready}
use fusion_router.Scheduler.Queue.Steps as Steps
use fusion_router.Scheduler.Queue.Steps.{Reach, start, next, configures}
use fusion_router.Scheduler.Run.{Run, Call}
use fusion_router.Scheduler.Run.Answers.{
  AtRound, first_round, next_round, AtRound-Round, AtRound-AtHead,
}
use fusion_router.Scheduler.Run.Handle.{account}
use fusion_router.Scheduler.Run.Loop.{initial}
use fusion_router.Scheduler.Run.Moves.{
  Ends, completes, decides, fails, Move, writes, counts, cascades, activates, resets, rearms,
  loops_to, Moves, done, step, Passage, all_passed, passed,
}
use fusion_router.Scheduler.Run.Passages.{queue-account}

Ends-Reach :
    (g : ExecutionGraph) (id : NodeId) (q r : WorkQueue) → Ends id q r → Reach g q → Reach g r
Ends-Reach g id q r (completes _) h = next h (Steps.completes q id)
Ends-Reach g id q r (decides _) h = next h (Steps.decides q id)
Ends-Reach g id q r (fails _) h = next h (Steps.fails q id)

module _ {V : Type 0} (c : Call V) (no_loops : loop_heads c.graph ≡ []) where
  no_head : (head : NodeId) → contains (loop_heads c.graph) head ≡ true → ⊥
  unfolding contains
  no_head head h = absurd (cc (h, ap (λ hs. contains hs head) no_loops))

  Move-Reach : (r m : Run V) → Move c.graph r m → Reach c.graph r.queue → Reach c.graph m.queue
  Move-Reach r m (writes _ _ _) h = h
  Move-Reach r m (counts _ _ _) h = h
  Move-Reach r m (cascades _ id) h = next h (Steps.fails r.queue id)
  Move-Reach r m (activates _ from to completed edge) h =
      next h (Steps.activates r.queue from to completed edge)
  Move-Reach r m (resets _ head _ loops) h = absurd (no_head head loops)
  Move-Reach r m (rearms _ head _ loops) h = absurd (no_head head loops)
  Move-Reach r m (loops_to _ head _ _ loops) h = absurd (no_head head loops)

  Moves-Reach : (r m : Run V) → Moves c.graph r m → Reach c.graph r.queue → Reach c.graph m.queue
  Moves-Reach r m (done _) h = h
  Moves-Reach r m (step first more) h = Moves-Reach _ m more (Move-Reach r _ first h)

  Passage-Reach :
      (seen : List NodeId) (r after : Run V)
      → Passage c seen r after
      → Reach c.graph r.queue
      → Reach c.graph after.queue
  Passage-Reach seen r after (all_passed _) h = h
  Passage-Reach seen r after (passed {m = m} {ids = rest} id usage within f more) h =
      let charged = (account c id usage r).0 in
      Passage-Reach rest m after more (
        Moves-Reach f.between m f.moves (
          Ends-Reach c.graph id charged.queue f.between.queue f.ends
            (subst (Reach c.graph) (sym (queue-account c id usage r)) h)))

  initial-Reach : (envelope : Option Envelope) → Reach c.graph (initial c envelope).queue
  unfolding initial
  initial-Reach envelope = next start (configures (new c.graph) c.scheduler.max_concurrent)

  AtRound-Reach :
      (envelope : Option Envelope) (round : ℕ) (r : Run V)
      → AtRound c envelope round r
      → Reach c.graph r.queue
  AtRound-Reach envelope round r first_round = initial-Reach envelope
  AtRound-Reach envelope round after (next_round {round = k} {r = r} before e) =
      let h = AtRound-Round c k r after (AtRound-AtHead c envelope k r before) e in
      Passage-Reach _ h.started after h.passage
        (h.launched.reached (AtRound-Reach envelope k r before))

  no_back : (u v : NodeId) → contains (new c.graph).back_edges (u, v) ≡ false
  no_back u v = elim (Bool-cases (contains (new c.graph).back_edges (u, v))) [
    | inl back ↦ absurd (no_head v ((back_edges_lem c.graph u v).0 back).0)
    | inr plain ↦ plain
  ]

  ready-of :
      (q : WorkQueue) (states : Map NodeId NodeState) (n : ExecutionNode)
      → dispatchable q states n ≡ true
      → contains q.ready n.id ≡ true
  unfolding dispatchable
  ready-of q states n h = ground arith

All-map {ℓ κ μ} :
    {A : Type ℓ} (P : A → Type κ) (Q : A → Type μ) (xs : List A)
    → ((x : A) → P x → Q x)
    → All P xs
    → All Q xs
All-map P Q [] f h = tt
All-map P Q (x ∷ xs) f h = (f x h.0, All-map P Q xs f h.1)

-- On a graph without loop nodes, whatever the executor, the token and the envelope do: every node
-- that the queue hands out in any round has had all its incoming edges activated, and their sources
-- are completed.
pub dispatch_safety :
    {V : Type 0} (c : Call V) (envelope : Option Envelope) (round : ℕ) (r : Run V)
    → loop_heads c.graph ≡ []
    → AtRound c envelope round r
    → All
        (λ n.
          (u : NodeId)
          → contains (pairs c.graph) (u, n.id) ≡ true
          → (contains r.queue.activated_edges (u, n.id) ≡ true)
            × (contains r.queue.completed u ≡ true))
        (get_ready r.queue r.node_states)
dispatch_safety c envelope round r no_loops at_round =
    let reached = AtRound-Reach c no_loops envelope round r at_round in
    All-map (λ n. dispatchable r.queue r.node_states n ≡ true) _ (get_ready r.queue r.node_states)
      (λ n fit u edge.
        dependency_safety c.graph n.id (λ w. no_back c no_loops w n.id) r.queue u reached
          (ready-of c no_loops r.queue r.node_states n fit) edge)
      (get_ready_lem r.queue r.node_states).0
