-- ===== src/Scheduler/Run/Idle.antt =====
-- No node stays in progress behind its result: crates/fusion-scheduler/src.
use fusion_router.Prelude.{
  ◌≡◌, refl, subst, ap, true, false, List, [], ◌∷◌, arith, nat_eq, nat_beq, nat_beq_iff, ltb,
  length,
}
use fusion_router.Prelude.Sets.{contains, contains-remove}
use fusion_router.Scheduler.Graph.{NodeId, ExecutionGraph}
use fusion_router.Scheduler.Queue.{
  WorkQueue, mark_conditional_completed, mark_failed, activate_edge,
}
use fusion_router.Scheduler.Queue.Select.{reset_body_node, reset_ready, any_in_progress}
use fusion_router.Scheduler.Queue.Frame.{kept-activate_edge, marks-mark_completed}
use fusion_router.Scheduler.Run.{Run, Call}
use fusion_router.Scheduler.Run.Handle.{account}
use fusion_router.Scheduler.Run.Moves.{
  Ends, completes, decides, fails, Move, writes, counts, cascades, activates, resets, rearms,
  loops_to, Moves, done, step, Passage, all_passed, passed,
}
use fusion_router.Scheduler.Run.Passages.{queue-account}

-- Whoever is in progress later was before.
abbrev pub NoNew : WorkQueue → WorkQueue → Type 0
NoNew q r = (v : NodeId) → contains r.in_progress v ≡ true → contains q.in_progress v ≡ true

decided-NoNew :
    (id : NodeId) (q : WorkQueue) (v : NodeId)
    → contains (mark_conditional_completed q id).in_progress v ≡ true
    → (contains q.in_progress v ≡ true) × (nat_beq id v ≡ false)
unfolding mark_conditional_completed
decided-NoNew id q v h = let c = contains-remove id v q.in_progress in (ground arith, ground arith)

failed-NoNew :
    (id : NodeId) (q : WorkQueue) (v : NodeId)
    → contains (mark_failed q id).in_progress v ≡ true
    → (contains q.in_progress v ≡ true) × (nat_beq id v ≡ false)
unfolding mark_failed
failed-NoNew id q v h = let c = contains-remove id v q.in_progress in (ground arith, ground arith)

Ends-NoNew :
    (id : NodeId) (q r : WorkQueue) (v : NodeId)
    → Ends id q r
    → contains r.in_progress v ≡ true
    → (contains q.in_progress v ≡ true) × (nat_beq id v ≡ false)
Ends-NoNew id q r v (completes _) h =
    decided-NoNew id q v
      (subst (λ xs. contains xs v ≡ true) (ap (λ m. m.2) (marks-mark_completed q id)) h)
Ends-NoNew id q r v (decides _) h = decided-NoNew id q v h
Ends-NoNew id q r v (fails _) h = failed-NoNew id q v h

reset-NoNew : (q : WorkQueue) (id : NodeId) → NoNew q (reset_body_node q id)
unfolding reset_body_node
reset-NoNew q id v h = ground (arith, contains-remove id v q.in_progress)

rearm-NoNew : (q : WorkQueue) (id : NodeId) → NoNew q (reset_ready q id)
unfolding reset_ready
rearm-NoNew q id v h = ground (arith, contains-remove id v q.in_progress)

activate-NoNew : (q : WorkQueue) (from to : NodeId) → NoNew q (activate_edge q from to)
activate-NoNew q from to v =
    subst (λ xs. contains xs v ≡ true) (ap (λ k. k.1.2) (kept-activate_edge q from to))

module _ {V : Type 0} (g : ExecutionGraph) where
  Move-NoNew : (r m : Run V) → Move g r m → NoNew r.queue m.queue
  Move-NoNew r m (writes _ _ _) v h = h
  Move-NoNew r m (counts _ _ _) v h = h
  Move-NoNew r m (cascades _ id) v h = (failed-NoNew id r.queue v h).0
  Move-NoNew r m (activates _ from to _ _) v h = activate-NoNew r.queue from to v h
  Move-NoNew r m (resets _ _ id _) v h = reset-NoNew r.queue id v h
  Move-NoNew r m (rearms _ _ id _) v h = rearm-NoNew r.queue id v h
  Move-NoNew r m (loops_to _ _ from to _) v h = activate-NoNew r.queue from to v h

  Moves-NoNew : (r m : Run V) → Moves g r m → NoNew r.queue m.queue
  Moves-NoNew r m (done _) v h = h
  Moves-NoNew r m (step first more) v h = Move-NoNew r _ first v (Moves-NoNew _ m more v h)

module _ {V : Type 0} (c : Call V) where
  -- Once the results of a batch are handled, none of its nodes is in progress.
  pub Passage-NoNew :
      (seen : List NodeId) (r after : Run V) (v : NodeId)
      → Passage c seen r after
      → contains after.queue.in_progress v ≡ true
      → (contains r.queue.in_progress v ≡ true) × (contains seen v ≡ false)
  unfolding contains
  Passage-NoNew seen r after v (all_passed _) h = (h, refl)
  Passage-NoNew seen r after v (passed {m = m} {ids = ids} id usage within finished more) h =
      let later = Passage-NoNew ids m after v more h in
      let mid = Moves-NoNew c.graph finished.between m finished.moves v later.0 in
      let first =
        Ends-NoNew id (account c id usage r).0.queue finished.between.queue v finished.ends mid in
      (
        subst (λ q. contains q.in_progress v ≡ true) (queue-account c id usage r) first.0,
        ground (arith, first.1, later.1),
      )

-- A set that contains nothing is empty.
pub none_in_progress :
    (q : WorkQueue) → ((v : NodeId) → contains q.in_progress v ≡ false) → any_in_progress q ≡ false
unfolding any_in_progress contains
none_in_progress q h = go q.in_progress h
  where
    go : (xs : List NodeId) → ((v : NodeId) → contains xs v ≡ false) → ltb 0 (length xs) ≡ false
    go [] h = refl
    go (x ∷ xs) h = absurd (ground (arith, h x, nat_beq_iff x x))
