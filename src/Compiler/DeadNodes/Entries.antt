-- ===== src/Compiler/DeadNodes/Entries.antt =====
-- Where control flow starts, said of the nodes and edges themselves: `roots` of
-- `DeadNodeEliminationPass`.
use fusion_router.Prelude.{
  ◌≡◌, ◌≢◌, refl, subst, ◌↔◌, inl, inr, Bool, true, false, ◌&&◌, nat_beq, nat_beq_iff, nat_eq,
  pair_eq, if-both, List, [], ◌∷◌, arith, length, All, Bool-cases, keep,
}
use fusion_router.Prelude.Sets.{contains, contains-insert}
use fusion_router.Compiler.Ir.{NodeId, IrNode, IrEdge}
use fusion_router.Compiler.DeadNodes.{has_incoming, has_outgoing, is_entry, roots}
use fusion_router.Compiler.DeadNodes.Search.{link, links}

-- A place of an item in a list.
pub data Among {A : Type 0} (x : A) : List A → Type 0 where
  here : {xs : List A} → Among x (x ∷ xs)
  there : {y : A} {xs : List A} → Among x xs → Among x (y ∷ xs)

-- The second list is the first without the items that do not fulfil the predicate.
pub data Sifted {A : Type 0} (P : A → Type 0) : List A → List A → Type 0 where
  empty : Sifted P [] []
  kept : {x : A} {xs ys : List A} → P x → Sifted P xs ys → Sifted P (x ∷ xs) (x ∷ ys)
  dropped : {x : A} {xs ys : List A} → (P x → ⊥) → Sifted P xs ys → Sifted P (x ∷ xs) ys

module _ {A : Type 0} where
  pub Among-length : (x : A) (xs : List A) → Among x xs → nat_beq (length xs) 0 ≡ false
  Among-length x _ here = ground arith
  Among-length x _ (there m) = ground arith

  pub keep-Sifted :
      (P : A → Type 0) (f : A → Bool)
      → ((x : A) → (f x ≡ true) ↔ P x)
      → (xs : List A) → Sifted P xs (keep f xs)
  keep-Sifted P f same [] = empty
  keep-Sifted P f same (x ∷ xs) =
      if-both (Sifted P (x ∷ xs)) (f x) (λ y. kept ((same x).0 y) (keep-Sifted P f same xs))
        (λ n. dropped (λ p. cc ((same x).1 p, n)) (keep-Sifted P f same xs))

-- A node is an entry point if an edge leaves it and none enters it.
abbrev pub IsEntry : {V : Type 0} → List IrEdge → IrNode V → Type 0
IsEntry edges n =
    ((e : IrEdge) × Among e edges × (e.from ≡ n.id)) × All (λ (e : IrEdge). e.to ≢ n.id) edges

pub Among-link :
    (e : IrEdge) (edges : List IrEdge) → Among e edges → contains (links edges) (link e) ≡ true
unfolding contains
Among-link e _ here = ground (arith, nat_beq_iff e.from e.from, nat_beq_iff e.to e.to)
Among-link e _ (there {xs} m) = ground (arith, Among-link e xs m)

no_incoming :
    (a : NodeId) (edges : List IrEdge)
    → (contains (has_incoming edges) a ≡ false) ↔ All (λ (e : IrEdge). e.to ≢ a) edges
unfolding has_incoming contains
no_incoming a [] = (λ _. tt, λ _. refl)
no_incoming a (e ∷ edges) = (
  λ h. (
    λ s. ground (arith, contains-insert e.to a (has_incoming edges), nat_beq_iff e.to a),
    (no_incoming a edges).0 (ground (arith, contains-insert e.to a (has_incoming edges))),
  ),
  λ h. elim (Bool-cases (nat_beq e.to a)) [
    | inl y ↦ absurd (h.0 ((nat_beq_iff e.to a).0 y))
    | inr n ↦
        ground (arith, contains-insert e.to a (has_incoming edges), (no_incoming a edges).1 h.1)
  ],
)

some_outgoing :
    (a : NodeId) (edges : List IrEdge)
    → contains (has_outgoing edges) a ≡ true
    → (e : IrEdge) × Among e edges × (e.from ≡ a)
unfolding has_outgoing contains
some_outgoing a [] h = absurd (cc h)
some_outgoing a (e ∷ edges) h = elim (Bool-cases (nat_beq e.from a)) [
  | inl y ↦ (e, here, (nat_beq_iff e.from a).0 y)
  | inr n ↦
      let rest =
        some_outgoing a edges (ground (arith, contains-insert e.from a (has_outgoing edges))) in
      (rest.0, there rest.1, rest.2)
]

outgoing :
    (e : IrEdge) (edges : List IrEdge) → Among e edges → contains (has_outgoing edges) e.from ≡ true
unfolding has_outgoing
outgoing e _ (here {xs}) =
    ground (arith, contains-insert e.from e.from (has_outgoing xs), nat_beq_iff e.from e.from)
outgoing e _ (there {y} {xs} m) =
    ground (arith, contains-insert y.from e.from (has_outgoing xs), outgoing e xs m)

module _ {V : Type 0} (edges : List IrEdge) where
  is_entry-IsEntry : (n : IrNode V) → (is_entry edges n ≡ true) ↔ IsEntry edges n
  is_entry-IsEntry n = (
    λ h. (some_outgoing n.id edges (ground arith), (no_incoming n.id edges).0 (ground arith)),
    λ h. ground (
      arith,
      (no_incoming n.id edges).1 h.1,
      subst (λ a. contains (has_outgoing edges) a ≡ true) h.0.2 (outgoing h.0.0 edges h.0.1),
    ),
  )

  pub IsEntry-roots :
      (n : IrNode V) (nodes : List (IrNode V))
      → Among n nodes
      → IsEntry edges n
      → contains (roots edges nodes) n.id ≡ true
  unfolding roots contains
  IsEntry-roots n _ (here {xs}) h =
      rw ((is_entry-IsEntry n).1 h)
        (ground (arith, contains-insert n.id n.id (roots edges xs), nat_beq_iff n.id n.id))
  IsEntry-roots n _ (there {y} {xs} place) h =
      if-both (λ xs. contains xs n.id ≡ true) (is_entry edges y)
        (λ _.
          ground (arith, contains-insert y.id n.id (roots edges xs), IsEntry-roots n xs place h))
        (λ _. IsEntry-roots n xs place h)

  pub roots-IsEntry :
      (a : NodeId) (nodes : List (IrNode V))
      → contains (roots edges nodes) a ≡ true
      → (n : IrNode V) × Among n nodes × IsEntry edges n × (n.id ≡ a)
  unfolding roots contains
  roots-IsEntry a [] h = absurd (cc h)
  roots-IsEntry a (n ∷ nodes) h = elim (Bool-cases (is_entry edges n && nat_beq n.id a)) [
    | inl y ↦
        (n, here, (is_entry-IsEntry n).0 (ground arith), (nat_beq_iff n.id a).0 (ground arith))
    | inr other ↦
        let rest =
          roots-IsEntry a nodes (ground (arith, contains-insert n.id a (roots edges nodes))) in
        (rest.0, there rest.1, rest.2, rest.3)
  ]
