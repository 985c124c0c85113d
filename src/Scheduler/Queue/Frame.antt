-- ===== src/Scheduler/Queue/Frame.antt =====
-- What no operation of the work queue changes (the graph, the edges that it indexes, the back edges
-- and the limit), and the marks, which activating edges does not change either:
-- crates/fusion-scheduler/src/work_queue.rs.
use fusion_router.Prelude.{
  ℕ, ◌≡◌, refl, ap, ◌∙◌, List, [], ◌∷◌, Option, nat_eq, pair_eq, Bool-cases, inl, inr, Text,
}
use fusion_router.Prelude.Sets.{contains}
use fusion_router.Prelude.Maps.{Map, get_or}
use fusion_router.Scheduler.Graph.{NodeId, ExecutionEdge, ExecutionGraph}
use fusion_router.Scheduler.Queue.{
  Pair, WorkQueue, activate, activate_new, activate_targets, try_activate_downstream,
  mark_conditional_completed, mark_completed, activate_edge, mark_failed, mark_in_progress,
}
use fusion_router.Scheduler.Queue.Select.{reset_body_node, reset_ready}

abbrev pub Static : Type 0
Static =
    ExecutionGraph
    × List Pair
    × Map NodeId (List (NodeId × Option Text))
    × Map NodeId (List ExecutionEdge)
    × ℕ

abbrev pub static : WorkQueue → Static
static q = (q.graph, q.back_edges, q.outgoing, q.outgoing_edges_map, q.max_concurrent_nodes)

-- Who is completed, failed and in progress.
abbrev pub marks : WorkQueue → List NodeId × List NodeId × List NodeId
marks q = (q.completed, q.failed, q.in_progress)

abbrev pub kept : WorkQueue → Static × (List NodeId × List NodeId × List NodeId)
kept q = (static q, marks q)

pub kept-activate_new : (q : WorkQueue) (from to : NodeId) → kept (activate_new q from to) ≡ kept q
unfolding activate_new activate
kept-activate_new q from to = elim (Bool-cases (contains q.activated_edges (from, to))) [
  | inl old ↦ rw (old, activate_new) refl
  | inr fresh ↦ rw (fresh, activate_new) refl
]

kept-activate_targets :
    (q : WorkQueue) (from : NodeId) (targets : List (NodeId × Option Text))
    → kept (activate_targets q from targets) ≡ kept q
unfolding activate_targets
kept-activate_targets q from [] = refl
kept-activate_targets q from ((to, _) ∷ targets) =
    kept-activate_targets (activate_new q from to) from targets ∙ kept-activate_new q from to

pub static-mark_conditional_completed :
    (q : WorkQueue) (id : NodeId) → static (mark_conditional_completed q id) ≡ static q
unfolding mark_conditional_completed
static-mark_conditional_completed q id = refl

kept-try_activate_downstream :
    (q : WorkQueue) (id : NodeId) → kept (try_activate_downstream q id) ≡ kept q
unfolding try_activate_downstream
kept-try_activate_downstream q id = elim (Bool-cases (contains q.selective_sources id)) [
  | inl own ↦ rw (own, try_activate_downstream) refl
  | inr all ↦
      rw (all, try_activate_downstream) (kept-activate_targets q id (get_or id [] q.outgoing))
]

pub marks-mark_completed :
    (q : WorkQueue) (id : NodeId)
    → marks (mark_completed q id) ≡ marks (mark_conditional_completed q id)
unfolding mark_completed
marks-mark_completed q id =
    ap (λ k. k.1) (kept-try_activate_downstream (mark_conditional_completed q id) id)

pub static-mark_completed : (q : WorkQueue) (id : NodeId) → static (mark_completed q id) ≡ static q
unfolding mark_completed
static-mark_completed q id =
    ap (λ k. k.0) (kept-try_activate_downstream (mark_conditional_completed q id) id)
    ∙ static-mark_conditional_completed q id

pub kept-activate_edge :
    (q : WorkQueue) (from to : NodeId) → kept (activate_edge q from to) ≡ kept q
unfolding activate_edge
kept-activate_edge q from to = elim (Bool-cases (contains q.back_edges (from, to))) [
  | inl back ↦ rw (back, activate_edge) refl
  | inr plain ↦ rw (plain, activate_edge) (kept-activate_new q from to)
]

pub static-mark_failed : (q : WorkQueue) (id : NodeId) → static (mark_failed q id) ≡ static q
unfolding mark_failed
static-mark_failed q id = refl

pub static-mark_in_progress :
    (q : WorkQueue) (id : NodeId) → static (mark_in_progress q id) ≡ static q
unfolding mark_in_progress
static-mark_in_progress q id = refl

pub static-reset_body_node :
    (q : WorkQueue) (id : NodeId) → static (reset_body_node q id) ≡ static q
unfolding reset_body_node
static-reset_body_node q id = refl

pub static-reset_ready : (q : WorkQueue) (id : NodeId) → static (reset_ready q id) ≡ static q
unfolding reset_ready
static-reset_ready q id = refl
