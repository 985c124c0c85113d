-- ===== src/Scheduler/Queue/Duplicates.antt =====
-- Parallel edges: two edges with one source and one target are counted twice and activated once.
use fusion_router.Prelude.{
  ◌≡◌, refl, ap, sym, ◌∙◌, true, false, List, [], ◌∷◌, arith, nat_beq, nat_beq_iff, nat_eq, pair_eq,
  Bool-cases, inl, inr,
}
use fusion_router.Prelude.Sets.{contains}
use fusion_router.Prelude.Counting.{
  erase, contains-keep, distinct-keep, Subset-keep, length-lt_of_twice,
}
use fusion_router.Scheduler.Graph.{NodeId, ExecutionGraph}
use fusion_router.Scheduler.Queue.{Pair, WorkQueue, new}
use fusion_router.Scheduler.Queue.Build.{pairs, into}
use fusion_router.Scheduler.Queue.Counts.{Reach-Inv}
use fusion_router.Scheduler.Queue.Steps.{Reach}
use fusion_router.Scheduler.Queue.Ready.{enough_activated}

-- Erasing the first occurrence of a pair goes on with the filter.
erase-into : (v u : NodeId) (xs : List Pair) → into v (erase (u, v) xs) ≡ erase (u, v) (into v xs)
unfolding erase
erase-into v u [] = refl
erase-into v u (x ∷ xs) = ground (arith, erase-into v u xs, nat_beq_iff x.1 v, nat_beq_iff x.0 u)

-- If the graph has two edges from u to v, and no back edge enters v, then v is never ready in any
-- state that the scheduler can bring the queue to before it resets a loop.
pub parallel_edges_starve :
    (g : ExecutionGraph) (v u : NodeId) (q : WorkQueue)
    → ((w : NodeId) → contains (new g).back_edges (w, v) ≡ false)
    → contains (pairs g) (u, v) ≡ true
    → contains (erase (u, v) (pairs g)) (u, v) ≡ true
    → Reach g q
    → contains q.ready v ≡ false
parallel_edges_starve g v u q no_back first second r = elim (Bool-cases (contains q.ready v)) [
  | inr never ↦ never
  | inl now ↦
      let inv = Reach-Inv g v no_back r in
      let leads = λ (p : Pair). nat_beq p.1 v in
      let once_more : contains (erase (u, v) (into v (pairs g))) (u, v) ≡ true =
        ap (λ xs. contains xs (u, v)) (sym (erase-into v u (pairs g)))
        ∙ contains-keep leads (u, v) (erase (u, v) (pairs g))
        ∙ ground (arith, nat_beq_iff v v) in
      let fewer =
        length-lt_of_twice (into v q.activated_edges) (into v (pairs g)) (u, v)
          (distinct-keep leads q.activated_edges inv.once)
          (Subset-keep leads q.activated_edges (pairs g) inv.known)
          (ground (arith, contains-keep leads (u, v) (pairs g), nat_beq_iff v v)) once_more in
      absurd (omega (arith, fewer, enough_activated g v no_back q r now))
]
