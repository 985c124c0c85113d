-- ===== src/Scheduler/Run/Settle.antt =====
-- Handling a result within the budget is a sequence of moves, on every branch of `run_inner`
-- (crates/fusion-scheduler/src/lib.rs), and never ends in an error.
pub mod Kinds
pub mod Results
use fusion_router.Prelude.{
  ℕ, zero, suc, ◌≡◌, refl, sym, subst, ap, ◌∙◌, Bool, true, false, not, ◌+◌, nat_beq_iff, List, [],
  ◌∷◌, Option, none, some, arith, ltb, nat_beq, nat_eq, pair_eq, Text, All, Bool-cases,
  Option-cases, inl, inr, if◌then◌else◌, find, length,
}
use fusion_router.Prelude.Sets.{contains, contains-insert}
use fusion_router.Prelude.Maps.{get, get_or, touch, put}
use fusion_router.Budget.Envelope.{Envelope, Outcome, ok, err, increment_iteration}
use fusion_router.Scheduler.Graph.{
  NodeId, ExecutionNode, ExecutionGraph, ExecutionNodeKind, NodeState, is_loop, loop, conditional,
  llm_generate, llm_review, llm_judge, transform, gate, split, join, barrier, pending, running,
  succeeded, skipped, failed,
}
use fusion_router.Scheduler.Queue.{
  WorkQueue, new, mark_completed, mark_conditional_completed, mark_failed, activate_edge,
}
use fusion_router.Scheduler.Queue.Select.{
  reset_body_node, reset_loop_body, reset_ready, has_loop_back_edge, loop_back_target,
}
use fusion_router.Scheduler.Queue.Build.{pairs}
use fusion_router.Scheduler.Queue.Backs.{loop_heads, back_edges_lem}
use fusion_router.Scheduler.Queue.Frame.{
  static, marks, static-mark_completed, kept-activate_edge, marks-mark_completed,
}
use fusion_router.Scheduler.Run.{
  Run, Flow, proceeds, stops, breaches, errs, Call, Json, node_at, targets_where, activate_all,
}
use fusion_router.Scheduler.Run.Cascade.{
  Search, cascade, visit, expand, set_failed, all_targets, push_all, is_waiting, fail_node,
  dependency_failed,
}
use fusion_router.Scheduler.Run.Handle.{
  is_exit, passes, decision, continues, store, set_pending, finish_conditional, arm_body, arm_exits,
  count_and_arm, arm_if, go_back, finish_node, finish_loop, again, loop_back, finish_plain,
  finish_kind, settle, iteration_limit,
}
use fusion_router.Scheduler.Run.Moves.{
  Ends, completes, decides, fails, Move, writes, counts, cascades, activates, resets, rearms,
  loops_to, Moves, done, step, Moves-trans, Finishes,
}
use fusion_router.Scheduler.Run.Nodes.{
  ids, node_at-some, node_at-ids_of, ids_of-ids, targets_where-known,
}

-- What is unchanged since the start.
abbrev pub Fixed : ExecutionGraph → WorkQueue → Type 0
Fixed g q =
    (q.graph ≡ g)
    × (q.back_edges ≡ (new g).back_edges)
    × (q.outgoing_edges_map ≡ (new g).outgoing_edges_map)

-- The calls that complete a node do complete it, and leave the queue's edges alone.
pub decided-completed :
    (q : WorkQueue) (id : NodeId) → contains (mark_conditional_completed q id).completed id ≡ true
unfolding mark_conditional_completed
decided-completed q id = ground (arith, contains-insert id id q.completed, nat_beq_iff id id)

pub completed-completed :
    (q : WorkQueue) (id : NodeId) → contains (mark_completed q id).completed id ≡ true
completed-completed q id =
    subst (λ ids. contains ids id ≡ true) (sym (ap (λ m. m.0) (marks-mark_completed q id)))
      (decided-completed q id)

pub edges_of : (g : ExecutionGraph) (q r : WorkQueue) → static r ≡ static q → Fixed g q → Fixed g r
edges_of g q r same h =
    (ap (λ s. s.0) same ∙ h.0, ap (λ s. s.1) same ∙ h.1, ap (λ s. s.3) same ∙ h.2)

module _ {V : Type 0} (g : ExecutionGraph) where
  abbrev pub Led : (Run V → Type 0) → Flow V → Type 0
  Led P (proceeds after) = P after
  Led P (stops after) = P after
  Led P (breaches after) = ⊥
  Led P (errs code) = ⊥

  pub activate_all-Moves :
      (r : Run V) (from : NodeId) (targets : List NodeId)
      → contains r.queue.completed from ≡ true
      → All (λ to. contains (pairs g) (from, to) ≡ true) targets
      → Moves g r (record r { queue = activate_all r.queue from targets })
  unfolding activate_all
  activate_all-Moves r from [] h edges = done r
  activate_all-Moves r from (to ∷ targets) h edges = step (activates r from to h edges.0) (
      activate_all-Moves (record r { queue = activate_edge r.queue from to }) from targets
        (subst (λ ids. contains ids from ≡ true)
          (sym (ap (λ k. k.1.0) (kept-activate_edge r.queue from to))) h)
        edges.1)

  -- Arming a loop's body, or its head from the body's end.
  pub loop-Moves :
      (r : Run V) (head from : NodeId) (targets : List NodeId)
      → contains (loop_heads g) head ≡ true
      → Moves g r (record r { queue = activate_all r.queue from targets })
  unfolding activate_all
  loop-Moves r head from [] h = done r
  loop-Moves r head from (to ∷ targets) h =
      step (loops_to r head from to h)
        (loop-Moves (record r { queue = activate_edge r.queue from to }) head from targets h)

  pub reset-Moves :
      (r : Run V) (head : NodeId) (body : List NodeId)
      → contains (loop_heads g) head ≡ true
      → Moves g r (record r { queue = reset_loop_body r.queue body })
  unfolding reset_loop_body
  reset-Moves r head [] h = done r
  reset-Moves r head (id ∷ body) h =
      step (resets r head id h)
        (reset-Moves (record r { queue = reset_body_node r.queue id }) head body h)

  visit-Moves :
      (d : NodeId) (visited stack : List NodeId) (r : Run V)
      → Moves g r (visit d (visited, stack, r)).2
  unfolding visit expand set_failed
  visit-Moves d visited stack r = elim (Bool-cases (contains visited d)) [
    | inl seen ↦ rw (seen, visit) (done r)
    | inr new_one ↦ elim (Bool-cases (is_waiting (get d r.node_states))) [
      | inl waits ↦
          rw (new_one, waits, visit)
            (step (writes r _ r.loop_iterations) (step (cascades _ d) (done _)))
      | inr settled ↦ rw (new_one, settled, visit) (done r)
    ]
  ]

  cascade-Moves :
      (fuel : ℕ) (visited stack : List NodeId) (r : Run V)
      → Moves g r (cascade fuel (visited, stack, r))
  unfolding cascade
  cascade-Moves zero visited stack r = done r
  cascade-Moves (suc fuel) visited [] r = done r
  cascade-Moves (suc fuel) visited (d ∷ stack) r =
      let (next_visited, next_stack, next_run) = visit d (visited, stack, r) in
      Moves-trans g r _ _ (visit-Moves d visited stack r) (cascade-Moves fuel _ _ _)

  pub fail_node-Finishes :
      (id : NodeId) (message : Text) (r : Run V) → Finishes g id r (fail_node id message r)
  unfolding fail_node set_failed
  fail_node-Finishes id message r = record {
    between = set_failed id (failed message) r;
    ends = fails r.queue;
    same_cost = refl;
    same_envelope = refl;
    moves = cascade-Moves _ _ _ _;
  }
