-- ===== src/Scheduler/Run/Progress.antt =====
-- Without loops, every round settles a node for good: `run_inner` of
-- crates/fusion-scheduler/src/lib.rs.
use fusion_router.Prelude.{
  ℕ, zero, suc, ◌≤◌, ◌<◌, ◌≡◌, refl, sym, subst, ap, ◌∙◌, Bool, true, false, not, ◌||◌, List, [],
  ◌∷◌, arith, nat_eq, nat_beq, nat_beq_iff, All, keep, take, length, Bool-cases, inl, inr,
}
use fusion_router.Prelude.Sets.{contains, contains-insert}
use fusion_router.Prelude.Maps.{Map}
use fusion_router.Scheduler.Graph.{NodeId, ExecutionNode, NodeState}
use fusion_router.Scheduler.Queue.{
  WorkQueue, mark_completed, mark_conditional_completed, mark_failed, activate_edge,
}
use fusion_router.Scheduler.Queue.Backs.{loop_heads}
use fusion_router.Scheduler.Queue.Dispatch.{get_ready_lem}
use fusion_router.Scheduler.Queue.Frame.{kept-activate_edge, marks-mark_completed}
use fusion_router.Scheduler.Queue.Select.{dispatchable}
use fusion_router.Scheduler.Run.{Run, Call}
use fusion_router.Scheduler.Run.Answers.{AtHead}
use fusion_router.Scheduler.Run.Handle.{account}
use fusion_router.Scheduler.Run.Loop.{batch_ids}
use fusion_router.Scheduler.Run.Moves.{
  Ends, completes, decides, fails, Move, writes, counts, cascades, activates, resets, rearms,
  loops_to, Moves, done, step, Finishes, Passage, all_passed, passed,
}
use fusion_router.Scheduler.Run.Nodes.{ids, get_ready-known}
use fusion_router.Scheduler.Run.Passages.{queue-account}
use fusion_router.Scheduler.Run.Turns.{Round}

-- Completed or failed.
abbrev pub is_closed : WorkQueue → NodeId → Bool
is_closed q v = contains q.completed v || contains q.failed v

abbrev pub Grows : WorkQueue → WorkQueue → Type 0
Grows q r = (v : NodeId) → is_closed q v ≡ true → is_closed r v ≡ true

decided-Grows : (id : NodeId) (q : WorkQueue) → Grows q (mark_conditional_completed q id)
unfolding mark_conditional_completed
decided-Grows id q v h = ground (arith, contains-insert id v q.completed)

failed-Grows : (id : NodeId) (q : WorkQueue) → Grows q (mark_failed q id)
unfolding mark_failed
failed-Grows id q v h = ground (arith, contains-insert id v q.failed)

marks-closed :
    (q r : WorkQueue) (v : NodeId)
    → q.completed ≡ r.completed
    → q.failed ≡ r.failed
    → is_closed q v ≡ is_closed r v
marks-closed q r v completed failed = rw (completed, failed) refl

completed-closed :
    (id : NodeId) (q : WorkQueue) (v : NodeId)
    → is_closed (mark_completed q id) v ≡ is_closed (mark_conditional_completed q id) v
completed-closed id q v =
    let same = marks-mark_completed q id in
    marks-closed (mark_completed q id) (mark_conditional_completed q id) v (ap (λ m. m.0) same)
      (ap (λ m. m.1) same)

activate-Grows : (q : WorkQueue) (from to : NodeId) → Grows q (activate_edge q from to)
activate-Grows q from to v h =
    let same = kept-activate_edge q from to in
    marks-closed (activate_edge q from to) q v (ap (λ k. k.1.0) same) (ap (λ k. k.1.1) same) ∙ h

Ends-Grows : (id : NodeId) (q r : WorkQueue) → Ends id q r → Grows q r
Ends-Grows id q r (completes _) v h = completed-closed id q v ∙ decided-Grows id q v h
Ends-Grows id q r (decides _) v h = decided-Grows id q v h
Ends-Grows id q r (fails _) v h = failed-Grows id q v h

decided-closed :
    (id : NodeId) (q : WorkQueue) → is_closed (mark_conditional_completed q id) id ≡ true
unfolding mark_conditional_completed
decided-closed id q = ground (arith, contains-insert id id q.completed, nat_beq_iff id id)

failed-closed : (id : NodeId) (q : WorkQueue) → is_closed (mark_failed q id) id ≡ true
unfolding mark_failed
failed-closed id q = ground (arith, contains-insert id id q.failed, nat_beq_iff id id)

Ends-closed : (id : NodeId) (q r : WorkQueue) → Ends id q r → is_closed r id ≡ true
Ends-closed id q r (completes _) = completed-closed id q id ∙ decided-closed id q
Ends-closed id q r (decides _) = decided-closed id q
Ends-closed id q r (fails _) = failed-closed id q

-- The nodes that are neither.
abbrev pub open_nodes : WorkQueue → List ExecutionNode → ℕ
open_nodes q nodes = length (keep (λ n. not (is_closed q n.id)) nodes)

fewer_or_same :
    (q r : WorkQueue) (nodes : List ExecutionNode)
    → Grows q r
    → open_nodes r nodes ≤ open_nodes q nodes
fewer_or_same q r [] grows = omega arith
fewer_or_same q r (n ∷ nodes) grows = ground (arith, grows n.id, fewer_or_same q r nodes grows)

fewer :
    (q r : WorkQueue) (nodes : List ExecutionNode) (id : NodeId)
    → Grows q r
    → contains (ids nodes) id ≡ true
    → is_closed q id ≡ false
    → is_closed r id ≡ true
    → open_nodes r nodes < open_nodes q nodes
unfolding contains
fewer q r [] id grows known before after = absurd (cc known)
fewer q r (n ∷ nodes) id grows known before after = elim (Bool-cases (nat_beq n.id id)) [
  | inl here ↦
      let e : n.id ≡ id = (nat_beq_iff n.id id).0 here in
      let was : is_closed q n.id ≡ false = subst (λ i. is_closed q i ≡ false) (sym e) before in
      let is : is_closed r n.id ≡ true = subst (λ i. is_closed r i ≡ true) (sym e) after in
      rw (was, is) (omega (arith, fewer_or_same q r nodes grows))
  | inr there ↦ ground (arith, grows n.id, fewer q r nodes id grows (ground arith) before after)
]

take_first :
    (k : ℕ) (first : ExecutionNode) (others : List ExecutionNode)
    → 1 ≤ k
    → contains (ids (take k (first ∷ others))) first.id ≡ true
unfolding contains
take_first zero first others h = absurd (omega arith)
take_first (suc k) first others h = ground (arith, nat_beq_iff first.id first.id)

dispatchable-open :
    (q : WorkQueue) (states : Map NodeId NodeState) (n : ExecutionNode)
    → dispatchable q states n ≡ true
    → is_closed q n.id ≡ false
unfolding dispatchable
dispatchable-open q states n h = ground arith

first-batch :
    {V : Type 0} (c : Call V) (first : ExecutionNode) (others : List ExecutionNode)
    → 1 ≤ c.scheduler.max_concurrent
    → contains (batch_ids c (first ∷ others)) first.id ≡ true
unfolding batch_ids contains
first-batch c first others some_room = take_first c.scheduler.max_concurrent first others some_room

module _ {V : Type 0} (c : Call V) (no_loops : loop_heads c.graph ≡ []) where
  no_head : (head : NodeId) → contains (loop_heads c.graph) head ≡ true → ⊥
  unfolding contains
  no_head head h = absurd (cc (h, ap (λ hs. contains hs head) no_loops))

  Move-Grows : (r m : Run V) → Move c.graph r m → Grows r.queue m.queue
  Move-Grows r m (writes _ _ _) v h = h
  Move-Grows r m (counts _ _ _) v h = h
  Move-Grows r m (cascades _ id) v h = failed-Grows id r.queue v h
  Move-Grows r m (activates _ from to _ _) v h = activate-Grows r.queue from to v h
  Move-Grows r m (resets _ head _ loops) v h = absurd (no_head head loops)
  Move-Grows r m (rearms _ head _ loops) v h = absurd (no_head head loops)
  Move-Grows r m (loops_to _ head _ _ loops) v h = absurd (no_head head loops)

  Moves-Grows : (r m : Run V) → Moves c.graph r m → Grows r.queue m.queue
  Moves-Grows r m (done _) v h = h
  Moves-Grows r m (step first more) v h = Moves-Grows _ m more v (Move-Grows r _ first v h)

  Finishes-Grows : (id : NodeId) (r m : Run V) → Finishes c.graph id r m → Grows r.queue m.queue
  Finishes-Grows id r m f v h =
      Moves-Grows f.between m f.moves v (Ends-Grows id r.queue f.between.queue f.ends v h)

  Passage-Grows :
      (seen : List NodeId) (r after : Run V) → Passage c seen r after → Grows r.queue after.queue
  Passage-Grows seen r after (all_passed _) v h = h
  Passage-Grows seen r after (passed {m = m} {ids = rest} id usage within f more) v h =
      Passage-Grows rest m after more v (
        Finishes-Grows id (account c id usage r).0 m f v
          (subst (λ q. is_closed q v ≡ true) (sym (queue-account c id usage r)) h))

  Passage-closed :
      (seen : List NodeId) (r after : Run V) (v : NodeId)
      → Passage c seen r after
      → contains seen v ≡ true
      → is_closed after.queue v ≡ true
  unfolding contains
  Passage-closed seen r after v (all_passed _) h = absurd (cc h)
  Passage-closed seen r after v (passed {m = m} {ids = rest} id usage within f more) h =
      elim (Bool-cases (nat_beq id v)) [
        | inl here ↦
            let e : id ≡ v = (nat_beq_iff id v).0 here in
            let charged = (account c id usage r).0 in
            let ended = Ends-closed id charged.queue f.between.queue f.ends in
            let mid = Moves-Grows f.between m f.moves id ended in
            subst (λ i. is_closed after.queue i ≡ true) e (Passage-Grows rest m after more id mid)
        | inr there ↦ Passage-closed rest m after v more (ground arith)
      ]

  -- A round settles at least one node that was open.
  pub Round-fewer :
      (r after : Run V)
      → 1 ≤ c.scheduler.max_concurrent
      → AtHead c r
      → Round c r after
      → open_nodes after.queue c.graph.nodes < open_nodes r.queue c.graph.nodes
  Round-fewer r after some_room head h =
      let fit =
        subst (All (λ n. dispatchable r.queue r.node_states n ≡ true)) h.chosen
          (get_ready_lem r.queue r.node_states).0 in
      let known =
        subst (λ g. contains (ids g.nodes) h.first.id ≡ true) head.fixed.0
          (subst (All (λ n. contains (ids r.queue.graph.nodes) n.id ≡ true)) h.chosen
            (get_ready-known r.queue r.node_states)).0 in
      let same = λ (v : NodeId).
        marks-closed h.started.queue r.queue v h.launched.completed_same h.launched.failed_same in
      let seen = first-batch c h.first h.others some_room in
      fewer r.queue after.queue c.graph.nodes h.first.id
        (λ v before. Passage-Grows _ h.started after h.passage v (same v ∙ before)) known
        (dispatchable-open r.queue r.node_states h.first fit.0)
        (Passage-closed _ h.started after h.first.id h.passage seen)
