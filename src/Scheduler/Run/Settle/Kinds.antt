-- ===== src/Scheduler/Run/Settle/Kinds.antt =====
-- What a success does for each kind of node: `run_inner` of
-- crates/fusion-scheduler/src/lib.rs.
use fusion_router.Prelude.{
  ℕ, ◌≡◌, refl, subst, Bool, true, not, ◌+◌, List, [], ◌∷◌, Option, none, some, arith, ltb, nat_eq,
  pair_eq, Text, Bool-cases, inl, inr, find,
}
use fusion_router.Prelude.Sets.{contains}
use fusion_router.Prelude.Maps.{get_or, touch, put}
use fusion_router.Budget.Envelope.{Envelope, Outcome, ok, err, increment_iteration}
use fusion_router.Scheduler.Graph.{NodeId, ExecutionNode, is_loop, pending}
use fusion_router.Scheduler.Queue.{WorkQueue, mark_completed, mark_conditional_completed}
use fusion_router.Scheduler.Queue.Select.{
  reset_loop_body, has_loop_back_edge, loop_back_target, loops_back,
}
use fusion_router.Scheduler.Queue.Backs.{loop_heads, back_edges_lem}
use fusion_router.Scheduler.Queue.Frame.{static-mark_completed}
use fusion_router.Scheduler.Run.{Run, Flow, proceeds, stops, breaches, errs, Call, targets_where}
use fusion_router.Scheduler.Run.Handle.{
  is_exit, passes, decision, continues, set_pending, finish_conditional, arm_body, arm_exits,
  count_and_arm, arm_if, go_back, finish_loop, again, loop_back, finish_plain, iteration_limit,
}
use fusion_router.Scheduler.Run.Moves.{
  Ends, completes, decides, writes, counts, rearms, loops_to, Moves, done, step, Moves-trans,
  Finishes,
}
use fusion_router.Scheduler.Run.Nodes.{node_at-some, ids_of-ids, targets_where-known}
use fusion_router.Scheduler.Run.Settle.{
  Fixed, Led, activate_all-Moves, loop-Moves, reset-Moves, decided-completed, completed-completed,
  edges_of,
}

find-holds :
    (p : NodeId × Option Text → Bool) (xs : List (NodeId × Option Text)) (head : NodeId)
    → (elim (find p xs) [ none ↦ none | some e ↦ some e.0 ]) ≡ some head
    → (condition : Option Text) × (p (head, condition) ≡ true)
find-holds p [] head e = absurd (cc e)
find-holds p (x ∷ xs) head e = elim (Bool-cases (p x)) [
  | inl hit ↦ let same : x.0 ≡ head = ground arith in (x.1, subst (λ h. p (h, x.1) ≡ true) same hit)
  | inr miss ↦ find-holds p xs head (ground arith)
]

module _ {V : Type 0} (c : Call V) where
  abbrev pub Ended : NodeId → Run V → Flow V → Type 0
  Ended id r = Led c.graph (Finishes c.graph id r)

  pub finish_conditional-Finishes :
      (id : NodeId) (r : Run V)
      → Fixed c.graph r.queue
      → Finishes c.graph id r (finish_conditional c.json id r)
  unfolding finish_conditional mark_conditional_completed
  finish_conditional-Finishes id r fixed =
      let q = mark_conditional_completed r.queue id in
      record {
        between = record r { queue = q };
        ends = decides r.queue;
        same_cost = refl;
        same_envelope = refl;
        moves =
            activate_all-Moves c.graph (record r { queue = q }) id _ (decided-completed r.queue id)
              (targets_where-known c.graph (passes (decision c.json id r)) q id fixed.2);
      }

  arm_body-Moves :
      (id : NodeId) (r : Run V)
      → contains (loop_heads c.graph) id ≡ true
      → Moves c.graph r (arm_body id r)
  unfolding arm_body
  arm_body-Moves id r head =
      let body = targets_where (λ e. not (is_exit e)) r.queue id in
      let waiting = record r { node_states = set_pending body r.node_states } in
      let cleared = record waiting { queue = reset_loop_body r.queue body } in
      step (writes r _ r.loop_iterations) (
        Moves-trans c.graph waiting cleared _ (reset-Moves c.graph waiting id body head)
          (loop-Moves c.graph cleared id id body head))

  arm_if-Led :
      (o : Outcome ℕ) (id : NodeId) (r counted : Run V)
      → Moves c.graph r counted
      → contains (loop_heads c.graph) id ≡ true
      → Led c.graph (Moves c.graph r) (arm_if o id counted)
  unfolding arm_if
  arm_if-Led (ok _) id r counted before head =
      Moves-trans c.graph r counted _ before (arm_body-Moves id counted head)
  arm_if-Led (err _) id r counted before head = before

  count_and_arm-Led :
      (o : Option Envelope) (id : NodeId) (r : Run V)
      → r.envelope ≡ o
      → contains (loop_heads c.graph) id ≡ true
      → Led c.graph (Moves c.graph r) (count_and_arm o id r)
  unfolding count_and_arm
  count_and_arm-Led none id r given head = arm_body-Moves id r head
  count_and_arm-Led (some e) id r given head =
      let counted = record r { envelope = some (increment_iteration e).0 } in
      arm_if-Led (increment_iteration e).1 id r counted (step (counts r e given) (done counted))
        head

  again-Moves :
      (id head : NodeId) (r : Run V)
      → contains (loop_heads c.graph) head ≡ true
      → Moves c.graph r (again id head r)
  unfolding again
  again-Moves id head r h =
      let body = targets_where (λ e. not (is_exit e)) r.queue head in
      let waiting = record r {
        node_states = put head pending (set_pending body r.node_states);
        loop_iterations = put head (get_or head 0 r.loop_iterations + 1) r.loop_iterations;
      } in
      let cleared = record waiting { queue = reset_loop_body r.queue body } in
      step (writes r _ _) (
        Moves-trans c.graph waiting cleared _ (reset-Moves c.graph waiting head body h)
          (step (rearms cleared head head h) (step (loops_to _ head id head h) (done _))))

  -- After a node was completed, what follows are moves.
  Led-Ended :
      (id : NodeId) (r m : Run V) (flow : Flow V)
      → Ends id r.queue m.queue
      → m.total_cost ≡ r.total_cost
      → m.envelope ≡ r.envelope
      → Led c.graph (Moves c.graph m) flow
      → Ended id r flow
  Led-Ended id r m (proceeds after) ends cost envelope moves = record {
    between = m;
    ends = ends;
    same_cost = cost;
    same_envelope = envelope;
    moves = moves;
  }
  Led-Ended id r m (stops after) ends cost envelope moves = record {
    between = m;
    ends = ends;
    same_cost = cost;
    same_envelope = envelope;
    moves = moves;
  }
  Led-Ended id r m (breaches after) ends cost envelope moves = moves
  Led-Ended id r m (errs code) ends cost envelope moves = moves

  pub finish_loop-Ended :
      (id : NodeId) (r : Run V)
      → Fixed c.graph r.queue
      → contains (loop_heads c.graph) id ≡ true
      → Ended id r (finish_loop c.json id r)
  unfolding finish_loop arm_exits
  finish_loop-Ended id r fixed head =
      let q = mark_completed r.queue id in
      let m = record r { queue = q } in
      let edges = edges_of c.graph r.queue q (static-mark_completed r.queue id) fixed in
      Led-Ended id r m _ (completes r.queue) refl refl (elim (Bool-cases (continues c.json id m)) [
        | inl more ↦ rw (more, finish_loop) (count_and_arm-Led m.envelope id m refl head)
        | inr enough ↦
            rw (enough, finish_loop)
              (activate_all-Moves c.graph m id _ (completed-completed r.queue id)
                (targets_where-known c.graph is_exit q id edges.2))
      ])

  loop_back-Led :
      (id head : NodeId) (r : Run V) (n : ExecutionNode)
      → contains (loop_heads c.graph) head ≡ true
      → Led c.graph (Moves c.graph r) (loop_back (some n) id head r)
  unfolding loop_back
  loop_back-Led id head r n h =
      let entered = record r { loop_iterations = touch head 0 r.loop_iterations } in
      elim (Bool-cases (ltb (get_or head 0 entered.loop_iterations) (iteration_limit n))) [
        | inl more ↦ rw (more, loop_back) (step (writes r _ _) (again-Moves id head entered h))
        | inr enough ↦ rw (enough, loop_back) (step (writes r _ _) (done entered))
      ]

  head_of_target :
      (q : WorkQueue) (id head : NodeId)
      → Fixed c.graph q
      → loop_back_target q id ≡ some head
      → contains (loop_heads c.graph) head ≡ true
  unfolding loop_back_target
  head_of_target q id head fixed e =
      let back = (find-holds (loops_back q id) (get_or id [] q.outgoing) head e).1 in
      ((back_edges_lem c.graph id head).0
        (subst (λ b. contains b (id, head) ≡ true) fixed.1 back)).0

  go_back-Led :
      (o : Option NodeId) (id : NodeId) (r : Run V)
      → ((head : NodeId) → o ≡ some head → contains (loop_heads c.graph) head ≡ true)
      → Led c.graph (Moves c.graph r) (go_back c o id r)
  unfolding go_back
  go_back-Led none id r heads = done r
  go_back-Led (some head) id r heads =
      let h = heads head refl in
      let (n, found) =
        node_at-some c.graph.nodes head (ids_of-ids (λ n. is_loop n.kind) c.graph.nodes head h) in
      rw found (loop_back-Led id head r n h)

  pub finish_plain-Ended :
      (id : NodeId) (r : Run V) → Fixed c.graph r.queue → Ended id r (finish_plain c id r)
  unfolding finish_plain
  finish_plain-Ended id r fixed =
      let q = mark_completed r.queue id in
      let m = record r { queue = q } in
      let edges = edges_of c.graph r.queue q (static-mark_completed r.queue id) fixed in
      Led-Ended id r m _ (completes r.queue) refl refl
        (elim (Bool-cases (has_loop_back_edge q id)) [
          | inl back ↦
              rw (back, finish_plain)
                (go_back-Led (loop_back_target q id) id m (λ h. head_of_target q id h edges))
          | inr plain ↦ rw (plain, finish_plain) (done m)
        ])
