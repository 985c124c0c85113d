-- ===== src/Scheduler/Queue/Ready.antt =====
-- Dependency safety: a node is ready only when everything that it waits for is done.
use fusion_router.Prelude.{
  ◌≤◌, ◌≡◌, subst, ap, true, false, List, [], ◌∷◌, arith, nat_beq, nat_beq_iff, ◌==◌, nat_eq,
  pair_eq, length, All, inl, inr, Bool-cases,
}
use fusion_router.Prelude.Sets.{contains}
use fusion_router.Prelude.Counting.{contains-keep, distinct-keep, Subset-keep, covers}
use fusion_router.Prelude.Maps.{get_or}
use fusion_router.Scheduler.Graph.{NodeId, ExecutionGraph}
use fusion_router.Scheduler.Queue.{Pair, WorkQueue, new}
use fusion_router.Scheduler.Queue.Build.{pairs, into, total-new}
use fusion_router.Scheduler.Queue.Counts.{Reach-Inv}
use fusion_router.Scheduler.Queue.Steps.{Reach}

All-contains {ℓ} :
    (P : Pair → Type ℓ) (p : Pair) (xs : List Pair) → All P xs → contains xs p ≡ true → P p
unfolding contains
All-contains P p [] h m = absurd (cc m)
All-contains P p (x ∷ xs) h m = elim (Bool-cases (x == p)) [
  | inl hit ↦ subst P ((pair_eq.same_iff x p).0 hit) h.0
  | inr miss ↦ All-contains P p xs h.1 (ground arith)
]

module _ (g : ExecutionGraph) (v : NodeId)
    (no_back : (u : NodeId) → contains (new g).back_edges (u, v) ≡ false) where
  -- A ready node has as many activated edges as it has incoming edges.
  pub enough_activated :
      (q : WorkQueue)
      → Reach g q
      → contains q.ready v ≡ true
      → length (into v (pairs g)) ≤ length (into v q.activated_edges)
  enough_activated q r now =
      let inv = Reach-Inv g v no_back r in
      let totals = ap (get_or v 0) inv.totals in
      ground (arith, inv.full, inv.counted, total-new g v no_back, totals)

  edge_activated :
      (q : WorkQueue) (u : NodeId)
      → Reach g q
      → contains q.ready v ≡ true
      → contains (pairs g) (u, v) ≡ true
      → contains q.activated_edges (u, v) ≡ true
  edge_activated q u r now edge =
      let inv = Reach-Inv g v no_back r in
      let leads = λ (p : Pair). nat_beq p.1 v in
      let covered =
        covers (into v q.activated_edges) (into v (pairs g)) (u, v)
          (distinct-keep leads q.activated_edges inv.once)
          (Subset-keep leads q.activated_edges (pairs g) inv.known) (enough_activated q r now)
          (ground (arith, contains-keep leads (u, v) (pairs g), nat_beq_iff v v)) in
      ground (arith, covered, contains-keep leads (u, v) q.activated_edges)

  -- In every state that the scheduler can bring the queue to before it resets a loop, a ready node
  -- that no back edge enters has had every incoming edge activated, and each of their sources is
  -- completed.
  pub dependency_safety :
      (q : WorkQueue) (u : NodeId)
      → Reach g q
      → contains q.ready v ≡ true
      → contains (pairs g) (u, v) ≡ true
      → (contains q.activated_edges (u, v) ≡ true) × (contains q.completed u ≡ true)
  dependency_safety q u r now edge =
      let active = edge_activated q u r now edge in
      (
        active,
        All-contains (λ p. contains q.completed p.0 ≡ true) (u, v) q.activated_edges
            (Reach-Inv g v no_back r).sources active,
      )
