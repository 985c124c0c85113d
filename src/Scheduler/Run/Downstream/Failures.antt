-- ===== src/Scheduler/Run/Downstream/Failures.antt =====
-- A failure and its dependents: `run_inner` of crates/fusion-scheduler/src/lib.rs.
use fusion_router.Prelude.{
  suc, ◌≡◌, ◌≢◌, ◌⊎◌, refl, sym, subst, ap, ◌∙◌, Bool, true, false, List, [], some, arith, nat_beq,
  nat_beq_iff, nat_eq, pair_eq, length, Text, Bool-cases, inl, inr,
}
use fusion_router.Prelude.Sets.{contains}
use fusion_router.Prelude.Maps.{Map, get, put, get-put}
use fusion_router.Scheduler.Graph.{NodeId, ExecutionGraph, NodeState, failed}
use fusion_router.Scheduler.Queue.{mark_failed}
use fusion_router.Scheduler.Queue.Build.{pairs}
use fusion_router.Scheduler.Run.{Run}
use fusion_router.Scheduler.Run.Cascade.{is_waiting, dependency_failed, set_failed, fail_node}
use fusion_router.Scheduler.Run.Settle.{Fixed}
use fusion_router.Scheduler.Run.Downstream.Cascades.{
  waits, Handled, Sound, cascade-Sound, start-Sound, start-measure,
}

-- The states behind the failure itself, for the other nodes.
put-apart :
    (id v : NodeId) (state : NodeState) (states : Map NodeId NodeState)
    → id ≢ v
    → get v (put id state states) ≡ get v states
put-apart id v state states apart = ground (arith, get-put id v state states, nat_beq_iff id v)

fail_node-Sound :
    {V : Type 0} (g : ExecutionGraph) (id : NodeId) (message : Text) (r : Run V)
    → Fixed g r.queue
    → (seen : List NodeId) × Sound g id
        (put id (failed message) r.node_states)
        seen
        []
        (fail_node id message r)
unfolding fail_node set_failed mark_failed is_waiting
fail_node-Sound g id message r fixed =
    let after = set_failed id (failed message) r in
    let before = put id (failed message) r.node_states in
    let over : is_waiting (get id before) ≡ false =
      ground (arith, get-put id id (failed message) r.node_states, nat_beq_iff id id) in
    let measured = start-measure g id before after fixed in
    let edges = ap (λ h. length h.edges) fixed.0 in
    cascade-Sound g id before (suc (length r.queue.graph.edges)) [] _ after
      (start-Sound g id before after fixed over refl) (omega (arith, measured, edges))

unstacked : (v : NodeId) (b : Bool) → (contains [] v ≡ true) ⊎ (b ≡ false) → b ≡ false
unfolding contains
unstacked v b h = ground arith

Handled-put :
    (id u : NodeId) (state : NodeState) (states after : Map NodeId NodeState)
    → (u ≡ id) ⊎ ((waits states u ≡ true) × (waits after u ≡ false))
    → Handled id (put id state states) after u
Handled-put id u state states after (inl same) = inl same
Handled-put id u state states after (inr (waited, waits_not)) = elim (Bool-cases (nat_beq id u)) [
  | inl here ↦ inl (sym ((nat_beq_iff id u).0 here))
  | inr there ↦ inr (rw (get-put id u state states, there) waited, waits_not)
]

-- When a node fails, the edges from it, and from every node that waited (without a state, or pending)
-- and was failed by the cascade, lead to no node that still waits. Of the other nodes, those that did
-- not wait keep their state, and those that waited keep it or fail with "dependency failed". The queue
-- has the edges of the graph.
pub failure_reaches_dependents :
    {V : Type 0} (g : ExecutionGraph) (id : NodeId) (message : Text) (r : Run V)
    → Fixed g r.queue
    → ((u v : NodeId)
        → contains (pairs g) (u, v) ≡ true
        → (u ≡ id)
          ⊎ ((is_waiting (get u r.node_states) ≡ true)
              × (is_waiting (get u (fail_node id message r).node_states) ≡ false))
        → is_waiting (get v (fail_node id message r).node_states) ≡ false)
      × ((v : NodeId)
          → id ≢ v
          → (get v (fail_node id message r).node_states ≡ get v r.node_states)
            ⊎ ((is_waiting (get v r.node_states) ≡ true)
                × (get v (fail_node id message r).node_states ≡ some dependency_failed)))
failure_reaches_dependents g id message r fixed =
    let (seen, h) = fail_node-Sound g id message r fixed in
    let before = put id (failed message) r.node_states in
    (
      λ u v e handled.
          unstacked v _ (h.edges u v e (Handled-put id u (failed message) r.node_states _ handled)),
      λ v apart.
          let same = put-apart id v (failed message) r.node_states apart in
          elim (Bool-cases (waits before v)) [
            | inr over ↦ inl ((h.kept v).0 over ∙ same)
            | inl waited ↦ elim ((h.kept v).1 waited) [
              | inl kept ↦ inl (kept ∙ same)
              | inr fails ↦ inr (subst (λ o. is_waiting o ≡ true) same waited, fails)
            ]
          ],
    )
