-- ===== src/Compiler/DeadNodes/Search.antt =====
-- The search of `DeadNodeEliminationPass`: it ends, and finds what is reachable from the entry points.
use fusion_router.Prelude.{
  ℕ, zero, suc, ◌+◌, ◌≤◌, ◌≡◌, refl, sym, subst, inl, inr, false, not, ◌||◌, nat_beq, nat_beq_iff,
  nat_eq, pair_eq, List, [], ◌∷◌, ◌++◌, map, arith, length, length-append, keep, All, Bool-cases,
  some,
}
use fusion_router.Prelude.Sets.{contains, insert, contains-insert}
use fusion_router.Compiler.Ir.{NodeId, IrEdge}
use fusion_router.Compiler.DeadNodes.{push_targets, search}

abbrev pub link : IrEdge → NodeId × NodeId
link e = (e.from, e.to)

abbrev pub links : List IrEdge → List (NodeId × NodeId)
links edges = map link edges

pub contains-append :
    (a : NodeId) (xs ys : List NodeId) → contains (xs ++ ys) a ≡ (contains xs a || contains ys a)
unfolding contains
contains-append a [] ys = refl
contains-append a (x ∷ xs) ys = ground (arith, contains-append a xs ys)

-- Edges whose source was not taken yet.
abbrev pub untaken : List NodeId → List IrEdge → ℕ
untaken reachable edges = length (keep (λ (e : IrEdge). not (contains reachable e.from)) edges)

push-untaken :
    (reachable : List NodeId) (current : NodeId) (seen : List NodeId) (edges : List IrEdge)
    (queue : List NodeId)
    → contains reachable current ≡ false
    → length (push_targets seen current edges queue) + untaken (insert current reachable) edges
      ≤ length queue + untaken reachable edges
unfolding push_targets
push-untaken reachable current seen [] queue h = omega arith
push-untaken reachable current seen (e ∷ edges) queue h = ground (
  arith,
  push-untaken reachable current seen edges queue h,
  push-untaken reachable current seen edges (queue ++ e.to ∷ []) h,
  length-append queue (e.to ∷ []),
  contains-insert current e.from reachable,
  nat_beq_iff e.from current,
  nat_beq_iff current e.from,
)

pub search-ends :
    (edges : List IrEdge) (fuel : ℕ) (reachable queue : List NodeId)
    → length queue + untaken reachable edges ≤ fuel
    → (out : List NodeId) × (search edges fuel reachable queue ≡ some out)
unfolding search
search-ends edges fuel reachable [] h = (reachable, refl)
search-ends edges zero reachable (current ∷ queue) h = absurd (omega arith)
search-ends edges (suc fuel) reachable (current ∷ queue) h =
    elim (Bool-cases (contains reachable current)) [
      | inl old ↦ rw (old, search) (search-ends edges fuel reachable queue (omega arith))
      | inr new ↦
          rw (new, search)
            (search-ends edges fuel (insert current reachable)
              (push_targets (insert current reachable) current edges queue)
              (omega
                (arith, push-untaken reachable current (insert current reachable) edges queue new)))
    ]

-- Every id of the result satisfies a predicate that the edges pass on.
module _ {ℓ} (P : NodeId → Type ℓ) where
  append-All : (xs : List NodeId) (a : NodeId) → All P xs → P a → All P (xs ++ a ∷ [])
  append-All [] a h p = (p, tt)
  append-All (x ∷ xs) a h p = (h.0, append-All xs a h.1 p)

  abbrev pub PassedOn : List IrEdge → Type ℓ
  PassedOn edges = All (λ (e : IrEdge). P e.from → P e.to) edges

  push-All :
      (seen : List NodeId) (current : NodeId) (edges : List IrEdge) (queue : List NodeId)
      → PassedOn edges
      → P current
      → All P queue
      → All P (push_targets seen current edges queue)
  unfolding push_targets
  push-All seen current [] queue step p h = h
  push-All seen current (e ∷ edges) queue step p h = elim (Bool-cases (nat_beq e.from current)) [
    | inr other ↦ rw other (push-All seen current edges queue step.1 p h)
    | inl same ↦ elim (Bool-cases (contains seen e.to)) [
      | inl old ↦ rw (same, old) (push-All seen current edges queue step.1 p h)
      | inr new ↦
          rw (same, new)
            (push-All seen current edges (queue ++ e.to ∷ []) step.1 p (
              append-All queue e.to h
                (step.0 (subst P (sym ((nat_beq_iff e.from current).0 same)) p))))
    ]
  ]

  insert-All : (a : NodeId) (xs : List NodeId) → P a → All P xs → All P (insert a xs)
  unfolding insert
  insert-All a xs p h = elim (Bool-cases (contains xs a)) [
    | inl old ↦ rw old h
    | inr new ↦ rw new (p, h)
  ]

  pub search-All :
      (edges : List IrEdge) (fuel : ℕ) (reachable queue out : List NodeId)
      → PassedOn edges
      → All P reachable
      → All P queue
      → search edges fuel reachable queue ≡ some out
      → All P out
  unfolding search
  search-All edges fuel reachable [] out step r q h = subst (All P) (cc h) r
  search-All edges zero reachable (current ∷ queue) out step r q h = absurd (cc h)
  search-All edges (suc fuel) reachable (current ∷ queue) out step r q h =
      elim (Bool-cases (contains reachable current)) [
        | inl old ↦ search-All edges fuel reachable queue out step r q.1 (rw (old, search) at h)
        | inr new ↦
            search-All edges fuel (insert current reachable)
              (push_targets (insert current reachable) current edges queue) out step
              (insert-All current reachable q.0 r)
              (push-All (insert current reachable) current edges queue step q.0 q.1)
              (rw (new, search) at h)
      ]
