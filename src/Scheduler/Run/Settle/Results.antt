-- ===== src/Scheduler/Run/Settle/Results.antt =====
-- What a result within the budget does: `run_inner` of crates/fusion-scheduler/src/lib.rs.
use fusion_router.Prelude.{◌≡◌, refl, subst, ◌∙◌, true, Option, nat_eq, pair_eq}
use fusion_router.Prelude.Sets.{contains}
use fusion_router.Prelude.Maps.{put}
use fusion_router.Scheduler.Graph.{
  NodeId, ExecutionNodeKind, NodeState, is_loop, loop, conditional, llm_generate, llm_review,
  llm_judge, transform, gate, split, join, barrier, pending, running, succeeded, skipped, failed,
}
use fusion_router.Scheduler.Queue.{mark_completed}
use fusion_router.Scheduler.Queue.Backs.{loop_heads}
use fusion_router.Scheduler.Run.{Run, Flow, proceeds, stops, breaches, errs, Call, node_at}
use fusion_router.Scheduler.Run.Handle.{store, finish_node, finish_kind, settle}
use fusion_router.Scheduler.Run.Moves.{Ends, completes, writes, done, step, Finishes}
use fusion_router.Scheduler.Run.Nodes.{ids, node_at-some, node_at-ids_of}
use fusion_router.Scheduler.Run.Settle.{Fixed, fail_node-Finishes}
use fusion_router.Scheduler.Run.Settle.Kinds.{
  Ended, finish_conditional-Finishes, finish_loop-Ended, finish_plain-Ended,
}

module _ {V : Type 0} (c : Call V) where
  finish_kind-Ended :
      (id : NodeId) (kind : ExecutionNodeKind) (r : Run V)
      → Fixed c.graph r.queue
      → (is_loop kind ≡ true → contains (loop_heads c.graph) id ≡ true)
      → Ended c id r (finish_kind c id kind r)
  unfolding finish_kind
  finish_kind-Ended id conditional r fixed head = finish_conditional-Finishes c id r fixed
  finish_kind-Ended id loop r fixed head = finish_loop-Ended c id r fixed (head refl)
  finish_kind-Ended id llm_generate r fixed head = finish_plain-Ended c id r fixed
  finish_kind-Ended id llm_review r fixed head = finish_plain-Ended c id r fixed
  finish_kind-Ended id llm_judge r fixed head = finish_plain-Ended c id r fixed
  finish_kind-Ended id transform r fixed head = finish_plain-Ended c id r fixed
  finish_kind-Ended id gate r fixed head = finish_plain-Ended c id r fixed
  finish_kind-Ended id split r fixed head = finish_plain-Ended c id r fixed
  finish_kind-Ended id join r fixed head = finish_plain-Ended c id r fixed
  finish_kind-Ended id barrier r fixed head = finish_plain-Ended c id r fixed

  finish_node-Ended :
      (id : NodeId) (r : Run V)
      → Fixed c.graph r.queue
      → contains (ids c.graph.nodes) id ≡ true
      → Ended c id r (finish_node c (node_at c.graph.nodes id) id r)
  unfolding finish_node
  finish_node-Ended id r fixed known =
      let (n, found) = node_at-some c.graph.nodes id known in
      rw found (
        finish_kind-Ended id n.kind r fixed
          (node_at-ids_of (λ n. is_loop n.kind) c.graph.nodes id n found))

  same-Ended :
      (id : NodeId) (r s : Run V) (flow : Flow V)
      → s.queue ≡ r.queue
      → s.total_cost ≡ r.total_cost
      → s.envelope ≡ r.envelope
      → Ended c id s flow
      → Ended c id r flow
  same-Ended id r s (proceeds after) queue cost envelope h = record {
    between = h.between;
    ends = subst (λ q. Ends id q h.between.queue) queue h.ends;
    same_cost = h.same_cost ∙ cost;
    same_envelope = h.same_envelope ∙ envelope;
    moves = h.moves;
  }
  same-Ended id r s (stops after) queue cost envelope h = record {
    between = h.between;
    ends = subst (λ q. Ends id q h.between.queue) queue h.ends;
    same_cost = h.same_cost ∙ cost;
    same_envelope = h.same_envelope ∙ envelope;
    moves = h.moves;
  }
  same-Ended id r s (breaches after) queue cost envelope h = h
  same-Ended id r s (errs code) queue cost envelope h = h

  other-Ended :
      (id : NodeId) (state : NodeState) (r : Run V)
      → Finishes c.graph id r
          (record r { queue = mark_completed r.queue id; node_states = put id state r.node_states })
  other-Ended id state r = record {
    between = record r { queue = mark_completed r.queue id };
    ends = completes r.queue;
    same_cost = refl;
    same_envelope = refl;
    moves = step (writes _ _ r.loop_iterations) (done _);
  }

  pub settle-Ended :
      (id : NodeId) (state : NodeState) (output : Option V) (r : Run V)
      → Fixed c.graph r.queue
      → contains (ids c.graph.nodes) id ≡ true
      → Ended c id r (settle c id state output r)
  unfolding settle store
  settle-Ended id succeeded output r fixed known =
      let stored = store c.json id succeeded output r in
      same-Ended id r stored _ refl refl refl (finish_node-Ended id stored fixed known)
  settle-Ended id (failed message) output r fixed known = fail_node-Finishes c.graph id message r
  settle-Ended id pending output r fixed known = other-Ended id pending r
  settle-Ended id running output r fixed known = other-Ended id running r
  settle-Ended id skipped output r fixed known = other-Ended id skipped r
