-- ===== src/Compiler/DeadNodes/Closed.antt =====
-- The search of `DeadNodeEliminationPass` leaves no edge of the graph unfollowed.
use fusion_router.Prelude.{
  ℕ, zero, suc, ◌≡◌, sym, subst, inl, inr, true, false, ◌||◌, nat_beq, nat_beq_iff, nat_eq, pair_eq,
  List, [], ◌∷◌, ◌++◌, arith, Bool-cases, some,
}
use fusion_router.Prelude.Sets.{contains, insert, contains-insert}
use fusion_router.Compiler.Ir.{NodeId, IrEdge}
use fusion_router.Compiler.DeadNodes.{push_targets, search}
use fusion_router.Compiler.DeadNodes.Search.{links, contains-append}

-- An edge whose source is in the result has its target there too.
push-contains :
    (seen : List NodeId) (current : NodeId) (edges : List IrEdge) (queue : List NodeId) (a : NodeId)
    → contains queue a ≡ true
    → contains (push_targets seen current edges queue) a ≡ true
unfolding push_targets
push-contains seen current [] queue a h = h
push-contains seen current (e ∷ edges) queue a h = ground (
  arith,
  push-contains seen current edges queue a,
  push-contains seen current edges (queue ++ e.to ∷ []) a,
  contains-append a queue (e.to ∷ []),
)

push-target :
    (seen : List NodeId) (current : NodeId) (edges : List IrEdge) (queue : List NodeId) (a : NodeId)
    → contains (links edges) (current, a) ≡ true
    → (contains seen a || contains (push_targets seen current edges queue) a) ≡ true
unfolding push_targets contains
push-target seen current [] queue a h = absurd (cc h)
push-target seen current (e ∷ edges) queue a h = ground (
  arith,
  push-target seen current edges queue a,
  push-target seen current edges (queue ++ e.to ∷ []) a,
  push-contains seen current edges (queue ++ e.to ∷ []) a,
  contains-append a queue (e.to ∷ []),
  nat_beq_iff e.from current,
  nat_beq_iff e.to a,
)

module _ (edges : List IrEdge) where
  abbrev pub Handled : List NodeId → List NodeId → Type 0
  Handled reachable queue =
      (u w : NodeId)
      → contains (links edges) (u, w) ≡ true
      → contains reachable u ≡ true
      → (contains reachable w || contains queue w) ≡ true

  Handled-old :
      (reachable : List NodeId) (current : NodeId) (queue : List NodeId)
      → Handled reachable (current ∷ queue)
      → contains reachable current ≡ true
      → Handled reachable queue
  unfolding contains
  Handled-old reachable current queue inv old u w l m =
      ground (arith, inv u w l m, nat_beq_iff current w)

  Handled-new :
      (reachable : List NodeId) (current : NodeId) (queue : List NodeId)
      → Handled reachable (current ∷ queue)
      → Handled
          (insert current reachable)
          (push_targets (insert current reachable) current edges queue)
  unfolding contains
  Handled-new reachable current queue inv u w l m = elim (Bool-cases (nat_beq current u)) [
    | inl same ↦
        push-target (insert current reachable) current edges queue w (
          subst (λ x. contains (links edges) (x, w) ≡ true) (sym ((nat_beq_iff current u).0 same))
            l)
    | inr other ↦ ground (
      arith,
      inv u w l,
      contains-insert current u reachable,
      contains-insert current w reachable,
      nat_beq_iff current w,
      push-contains (insert current reachable) current edges queue w,
    )
  ]

  pub search-closed :
      (fuel : ℕ) (reachable queue out : List NodeId)
      → Handled reachable queue
      → search edges fuel reachable queue ≡ some out
      → Handled out []
        × ((a : NodeId) → (contains reachable a || contains queue a) ≡ true → contains out a ≡ true)
  unfolding search contains
  search-closed fuel reachable [] out inv h =
      let same : reachable ≡ out = cc h in
      subst
        (λ xs.
          Handled xs []
          × ((a : NodeId) → (contains reachable a || false) ≡ true → contains xs a ≡ true))
        same (inv, λ a m. ground arith)
  search-closed zero reachable (current ∷ queue) out inv h = absurd (cc h)
  search-closed (suc fuel) reachable (current ∷ queue) out inv h =
      elim (Bool-cases (contains reachable current)) [
        | inl old ↦
            let rest =
              search-closed fuel reachable queue out (Handled-old reachable current queue inv old)
                (rw (old, search) at h) in
            (rest.0, λ a m. rest.1 a (ground (arith, nat_beq_iff current a)))
        | inr new ↦
            let rest =
              search-closed fuel (insert current reachable)
                (push_targets (insert current reachable) current edges queue) out
                (Handled-new reachable current queue inv) (rw (new, search) at h) in
            (
              rest.0,
              λ a m. rest.1 a (
                  ground (
                    arith,
                    contains-insert current a reachable,
                    push-contains (insert current reachable) current edges queue a,
                  )),
            )
      ]
