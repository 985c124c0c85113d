-- ===== src/Compiler/ControlFlow/Cycles/Trails.antt =====
-- Paths in the graph of `three_color_cycle_detect` (crates/fusion-compiler/src/lib.rs): the black nodes
-- in the order in which they were finished, and the grey nodes as the path on the stack.
use fusion_router.Prelude.{
  ℕ, ◌≡◌, ◌⊎◌, sym, subst, Bool, true, false, List, [], ◌∷◌, arith, nat_beq, nat_beq_iff, nat_eq,
  map, take, All, Bool-cases, inl, inr,
}
use fusion_router.Prelude.Sets.{contains}
use fusion_router.Prelude.Maps.{get_or}
use fusion_router.Compiler.Ir.{NodeId}
use fusion_router.Compiler.ControlFlow.Cycles.{Adjacency}

-- One step after the other, at least one.
pub data Trail (leads : NodeId → NodeId → Bool) : NodeId → NodeId → Type 0 where
  one : {u v : NodeId} → leads u v ≡ true → Trail leads u v
  more : {u v w : NodeId} → leads u v ≡ true → Trail leads v w → Trail leads u w

abbrev pub nodes_of : List (NodeId × ℕ) → List NodeId
nodes_of stack = map (λ p. p.0) stack

module _ (graph : Adjacency) where
  abbrev pub children : NodeId → List NodeId
  children n = get_or n [] graph

  abbrev pub leads : NodeId → NodeId → Bool
  leads u v = contains (children u) v

  -- Every node's children are behind it.
  abbrev pub Finished : List NodeId → Type 0
  Finished [] = Unit
  Finished (v ∷ order) =
      (contains order v ≡ false)
      × ((w : NodeId) → leads v w ≡ true → contains order w ≡ true)
      × Finished order

  Finished-Trail :
      (order : List NodeId) (u w : NodeId)
      → Finished order
      → contains order u ≡ true
      → Trail leads u w
      → contains order w ≡ true
  unfolding contains
  Finished-Trail [] u w h m p = m
  Finished-Trail (v ∷ order) u w h m (one e) = elim (Bool-cases (nat_beq v u)) [
    | inl here ↦
        let same = (nat_beq_iff v u).0 here in
        ground (arith, h.1 w (subst (λ k. leads k w ≡ true) (sym same) e))
    | inr there ↦ ground (arith, Finished-Trail order u w h.2 (ground arith) (one e))
  ]
  Finished-Trail (v ∷ order) u w h m (more {v = x} e p) = elim (Bool-cases (nat_beq v u)) [
    | inl here ↦
        let same = (nat_beq_iff v u).0 here in
        let next = h.1 x (subst (λ k. leads k x ≡ true) (sym same) e) in
        ground (arith, Finished-Trail order x w h.2 next p)
    | inr there ↦ ground (arith, Finished-Trail order u w h.2 (ground arith) (more e p))
  ]

  -- So none of them lies on a cycle.
  pub Finished-acyclic :
      (order : List NodeId) (u : NodeId)
      → Finished order
      → contains order u ≡ true
      → Trail leads u u
      → ⊥
  unfolding contains
  Finished-acyclic [] u h m p = absurd (cc m)
  Finished-acyclic (v ∷ order) u h m p = elim (Bool-cases (nat_beq v u)) [
    | inl here ↦
        let same = (nat_beq_iff v u).0 here in
        absurd (cc (first-back v u order h same p, subst (λ k. contains order k ≡ false) same h.0))
    | inr there ↦ Finished-acyclic order u h.2 (ground arith) p
  ]
    where
      first-back :
          (v u : NodeId) (order : List NodeId)
          → Finished (v ∷ order)
          → v ≡ u
          → Trail leads u u
          → contains order u ≡ true
      first-back v u order h same (one e) = h.1 u (subst (λ k. leads k u ≡ true) (sym same) e)
      first-back v u order h same (more {v = x} e p) =
          Finished-Trail order x u h.2 (h.1 x (subst (λ k. leads k x ≡ true) (sym same) e)) p

  -- The nodes on the stack, each led to from the one below it. The children of a node before its index
  -- are finished, or the last of them is the node above.
  abbrev pub Below : List NodeId → NodeId → List (NodeId × ℕ) → Type 0
  Below order n [] = Unit
  Below order n ((m, k) ∷ stack) =
      (leads m n ≡ true)
      × All (λ w. (contains order w ≡ true) ⊎ (w ≡ n)) (take k (children m))
      × Below order m stack

  abbrev pub Chain : List NodeId → List (NodeId × ℕ) → Type 0
  Chain order [] = Unit
  Chain order ((n, i) ∷ stack) =
      All (λ w. contains order w ≡ true) (take i (children n)) × Below order n stack

  pub Trail-snoc : (u v w : NodeId) → Trail leads u v → leads v w ≡ true → Trail leads u w
  Trail-snoc u v w (one e) next = more e (one next)
  Trail-snoc u v w (more {v = x} e p) next = more e (Trail-snoc x v w p next)

  pub Below-Trail :
      (order : List NodeId) (n v : NodeId) (stack : List (NodeId × ℕ))
      → Below order n stack
      → contains (nodes_of stack) v ≡ true
      → Trail leads v n
  unfolding contains
  Below-Trail order n v [] h m = absurd (cc m)
  Below-Trail order n v ((m, k) ∷ stack) h on_stack = elim (Bool-cases (nat_beq m v)) [
    | inl here ↦ one (subst (λ x. leads x n ≡ true) ((nat_beq_iff m v).0 here) h.0)
    | inr there ↦ Trail-snoc v m n (Below-Trail order m v stack h.2 (ground arith)) h.0
  ]
