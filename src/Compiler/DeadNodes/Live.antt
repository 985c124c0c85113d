-- ===== src/Compiler/DeadNodes/Live.antt =====
-- What `DeadNodeEliminationPass` keeps.
use fusion_router.Prelude.{
  ◌+◌, ◌≤◌, ◌≡◌, refl, subst, ◌↔◌, ◌⊎◌, inl, inr, true, false, nat_beq, nat_beq_iff, nat_eq,
  pair_eq, if-both, List, [], ◌∷◌, arith, length, All, Bool-cases, Option, some,
}
use fusion_router.Prelude.Sets.{contains}
use fusion_router.Compiler.Ir.{NodeId, IrNode, IrEdge, WorkflowIr, PassResult, ok}
use fusion_router.Compiler.DeadNodes.{roots, search, live, live_edge, dead_node_elimination}
use fusion_router.Compiler.DeadNodes.Search.{links, search-ends, untaken, search-All, PassedOn}
use fusion_router.Compiler.DeadNodes.Closed.{Handled, search-closed}
use fusion_router.Compiler.DeadNodes.Entries.{
  Among, here, there, Among-length, Among-link, Sifted, keep-Sifted, IsEntry, IsEntry-roots,
  roots-IsEntry,
}

-- What control flow can arrive at from an entry point along the edges.
pub data Reachable {V : Type 0} (ir : WorkflowIr V) : NodeId → Type 0 where
  entry :
      (id : NodeId) (n : IrNode V)
      → Among n ir.nodes
      → IsEntry ir.edges n
      → n.id ≡ id
      → Reachable ir id
  along :
      (u w : NodeId) (e : IrEdge)
      → Reachable ir u
      → Among e ir.edges
      → e.from ≡ u
      → e.to ≡ w
      → Reachable ir w

-- The graph with the reachable nodes and the edges between them, in their order.
abbrev pub Trimmed : {V : Type 0} → WorkflowIr V → WorkflowIr V → Type 0
Trimmed {V} ir out =
    (out.plan_id ≡ ir.plan_id)
    × (out.metadata ≡ ir.metadata)
    × Sifted (λ (n : IrNode V). Reachable ir n.id) ir.nodes out.nodes
    × Sifted (λ (e : IrEdge). Reachable ir e.from × Reachable ir e.to) ir.edges out.edges

entries-cases :
    (xs : List NodeId)
    → ((nat_beq (length xs) 0 ≡ true) × ((a : NodeId) → contains xs a ≡ true → ⊥))
      ⊎ ((a : NodeId) × (nat_beq (length xs) 0 ≡ false) × (contains xs a ≡ true))
unfolding contains
entries-cases [] = inl (refl, λ a m. cc m)
entries-cases (x ∷ xs) = inr (x, ground arith, ground (arith, nat_beq_iff x x))

untaken-le :
    (reachable : List NodeId) (edges : List IrEdge) → untaken reachable edges ≤ length edges
untaken-le reachable [] = omega arith
untaken-le reachable (e ∷ edges) = ground (arith, untaken-le reachable edges)

module _ {V : Type 0} (ir : WorkflowIr V) where
  edges-PassedOn :
      (edges : List IrEdge)
      → ((e : IrEdge) → Among e edges → Among e ir.edges)
      → PassedOn (Reachable ir) edges
  edges-PassedOn [] within = tt
  edges-PassedOn (e ∷ edges) within = (
    λ r. along e.from e.to e r (within e here) refl refl,
    edges-PassedOn edges (λ d m. within d (there m)),
  )

  contains-All :
      (P : NodeId → Type 0) (a : NodeId) (xs : List NodeId) → All P xs → contains xs a ≡ true → P a
  unfolding contains
  contains-All P a [] h m = absurd (cc m)
  contains-All P a (x ∷ xs) h m = elim (Bool-cases (nat_beq x a)) [
    | inl same ↦ subst P ((nat_beq_iff x a).0 same) h.0
    | inr other ↦ contains-All P a xs h.1 (ground arith)
  ]

  All-entries :
      (xs : List NodeId)
      → ((a : NodeId) → contains xs a ≡ true → contains (roots ir.edges ir.nodes) a ≡ true)
      → All (Reachable ir) xs
  unfolding contains
  All-entries [] within = tt
  All-entries (x ∷ xs) within = (
    (let found = roots-IsEntry ir.edges x ir.nodes (within x (ground (arith, nat_beq_iff x x))) in
        entry x found.0 found.1 found.2 found.3),
    All-entries xs (λ a m. within a (ground arith)),
  )

  Reachable-closed :
      (out : List NodeId)
      → Handled ir.edges out []
      → ((a : NodeId) → contains (roots ir.edges ir.nodes) a ≡ true → contains out a ≡ true)
      → (id : NodeId) → Reachable ir id
      → contains out id ≡ true
  unfolding contains
  Reachable-closed out handled from_entries id (entry _ n place h same) = from_entries id (
      subst (λ a. contains (roots ir.edges ir.nodes) a ≡ true) same
        (IsEntry-roots ir.edges n ir.nodes place h))
  Reachable-closed out handled from_entries id (along u _ e r place from to) = ground (
    arith,
    handled u id (
        subst (λ a. contains (links ir.edges) (a, id) ≡ true) from
          (subst (λ b. contains (links ir.edges) (e.from, b) ≡ true) to
            (Among-link e ir.edges place))),
    Reachable-closed out handled from_entries u r,
  )

  -- The search with its fuel answers with the reachable ids.
  search-Reachable :
      (out : List NodeId) × (search ir.edges
          (length (roots ir.edges ir.nodes) + length ir.edges)
          []
          (roots ir.edges ir.nodes)
        ≡ some out)
      × ((id : NodeId) → (contains out id ≡ true) ↔ Reachable ir id)
  unfolding contains
  search-Reachable =
      let entries = roots ir.edges ir.nodes in
      let run =
        search-ends ir.edges (length entries + length ir.edges) [] entries
          (omega (arith, untaken-le [] ir.edges)) in
      let closed =
        search-closed ir.edges (length entries + length ir.edges) [] entries run.0
          (λ u w l m. absurd (cc m)) run.1 in
      let sound =
        search-All (Reachable ir) ir.edges (length entries + length ir.edges) [] entries run.0
          (edges-PassedOn ir.edges (λ e m. m)) tt (All-entries entries (λ a m. m)) run.1 in
      (
        run.0,
        run.1,
        λ id. (
          λ m. contains-All (Reachable ir) id run.0 sound m,
          λ r. Reachable-closed run.0 closed.0 (λ a m. closed.1 a m) id r,
        ),
      )

  live-Trimmed :
      (reachable : List NodeId)
      → ((id : NodeId) → (contains reachable id ≡ true) ↔ Reachable ir id)
      → Trimmed ir (live reachable ir)
  live-Trimmed reachable same = (
    refl,
    refl,
    keep-Sifted (λ (n : IrNode V). Reachable ir n.id) (λ n. contains reachable n.id)
        (λ n. same n.id) ir.nodes,
    keep-Sifted (λ (e : IrEdge). Reachable ir e.from × Reachable ir e.to) (live_edge reachable)
        (λ e. (
          λ h. ((same e.from).0 (ground arith), (same e.to).0 (ground arith)),
          λ r. ground (arith, (same e.from).1 r.0, (same e.to).1 r.1),
        ))
        ir.edges,
  )

  no_entries :
      ((a : NodeId) → contains (roots ir.edges ir.nodes) a ≡ true → ⊥)
      → (nodes : List (IrNode V)) → ((n : IrNode V) → Among n nodes → Among n ir.nodes)
      → All (λ (n : IrNode V). IsEntry ir.edges n → ⊥) nodes
  no_entries never [] within = tt
  no_entries never (n ∷ nodes) within = (
    λ h. never n.id (IsEntry-roots ir.edges n ir.nodes (within n here) h),
    no_entries never nodes (λ m place. within m (there place)),
  )

  unchanged :
      nat_beq (length (roots ir.edges ir.nodes)) 0 ≡ true → dead_node_elimination ir ≡ some (ok ir)
  unfolding dead_node_elimination
  unchanged h =
      let Same = λ (x : Option (PassResult (WorkflowIr V))). x ≡ some (ok ir) in
      if-both Same (nat_beq (length ir.nodes) 0) (λ _. refl)
        (λ _. if-both Same (nat_beq (length ir.edges) 0) (λ _. refl) (λ _. rw h refl))

  -- The pass ends without error on every graph. If no node is an entry point, which an edge leaves
  -- and none enters, the graph is returned as it is. Else the graph that is returned has, in their
  -- order, exactly the nodes that are reachable from the entry points along the edges and exactly
  -- the edges with both ends reachable, and its other fields are those of the given graph.
  pub dead_node_elimination_lem :
      (All (λ (n : IrNode V). IsEntry ir.edges n → ⊥) ir.nodes
        × (dead_node_elimination ir ≡ some (ok ir)))
      ⊎ ((n : IrNode V) × Among n ir.nodes
          × IsEntry ir.edges n
          × ((out : WorkflowIr V) × (dead_node_elimination ir ≡ some (ok out)) × Trimmed ir out))
  unfolding dead_node_elimination
  dead_node_elimination_lem = elim (entries-cases (roots ir.edges ir.nodes)) [
    | inl (none_left, never) ↦ inl (no_entries never ir.nodes (λ n m. m), unchanged none_left)
    | inr (a, some_entry, member) ↦
        let found = roots-IsEntry ir.edges a ir.nodes member in
        let run = search-Reachable in
        inr (
          found.0,
          found.1,
          found.2,
          (
            live run.0 ir,
            rw
                (
                  Among-length found.0 ir.nodes found.1,
                  Among-length found.2.0.0 ir.edges found.2.0.1,
                  some_entry,
                  run.1,
                )
                refl,
            live-Trimmed run.0 run.2,
          ),
        )
  ]
