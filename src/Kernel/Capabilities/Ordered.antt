-- ===== src/Kernel/Capabilities/Ordered.antt =====
-- What `topological_sort` of crates/fusion-kernel/src/capability/graph.rs returns.
use fusion_router.Prelude.{
  ℕ, zero, suc, ◌≤◌, ◌<◌, ◌≡◌, refl, sym, ap, ◌∙◌, Bool, true, ◌&&◌, List, [], ◌∷◌, ◌++◌, Option,
  none, some, arith, nat_beq, nat_beq_iff, nat_eq, length, any, Bool-cases, inl, inr,
}
use fusion_router.Prelude.Sets.{contains}
use fusion_router.Prelude.Counting.{
  distinct, Subset, covers, length-le_of_distinct, Subset-contains, contains-Subset,
}
use fusion_router.Prelude.Maps.{Map, get}
use fusion_router.Kernel.Capabilities.{
  CapabilityId, DependencyEdge, CapabilityGraph, ids, is_present, zeros, in_degrees, neighbors,
  free, Sorted, sorted, cyclic, out_of_fuel, checked_order, topological_sort,
}
use fusion_router.Kernel.Capabilities.Sorting.{degree, dependents, pending}
use fusion_router.Kernel.Capabilities.Starting.{
  zeros-start, in_degrees-start, free-start, start-free,
}
use fusion_router.Kernel.Capabilities.Taking.{OrderedAfter, Kept, Took, Took, take_free-Took}
use fusion_router.Kernel.Capabilities.Neighbors.{
  pending-neighbors, pending-nothing, contains-neighbors, pending-done,
}

-- A node waits for another if a dependency between nodes says so.
abbrev pub depends : CapabilityGraph → CapabilityId → CapabilityId → Bool
depends g v u =
    any (λ d. is_present (ids g) d && (nat_beq d.source v && nat_beq d.target u)) g.dependencies

-- A number for each node that is smaller for what it depends on: there is none on a cycle.
abbrev pub Ranks : CapabilityGraph → (CapabilityId → ℕ) → Type 0
Ranks g rank = (v u : CapabilityId) → depends g v u ≡ true → rank u < rank v

abbrev pub InOrder : CapabilityGraph → List CapabilityId → List CapabilityId → Type 0
InOrder g seen [] = Unit
InOrder g seen (v ∷ order) =
    ((u : CapabilityId) → depends g v u ≡ true → contains seen u ≡ true)
    × InOrder g (seen ++ v ∷ []) order

abbrev pub Explained : CapabilityGraph → Sorted → Type 0
Explained g out_of_fuel = ⊥
Explained g cyclic = (rank : CapabilityId → ℕ) → Ranks g rank → ⊥
Explained g (sorted order) =
    (distinct order ≡ true)
    × ((v : CapabilityId) → contains order v ≡ contains (ids g) v)
    × InOrder g [] order

depends-known :
    (g : CapabilityGraph) (deps : List DependencyEdge) (u v : CapabilityId)
    → any (λ d. is_present (ids g) d && (nat_beq d.source v && nat_beq d.target u)) deps ≡ true
    → (contains (ids g) v ≡ true) × (contains (ids g) u ≡ true)
depends-known g [] u v h = absurd (cc h)
depends-known g (d ∷ deps) u v h =
    let rest = depends-known g deps u v in
    let s =
      λ (e : nat_beq d.source v ≡ true). ap (contains (ids g)) ((nat_beq_iff d.source v).0 e) in
    let t =
      λ (e : nat_beq d.target u ≡ true). ap (contains (ids g)) ((nat_beq_iff d.target u).0 e) in
    (ground (arith, rest, s, h), ground (arith, rest, t, h))

pub depends-ids :
    (g : CapabilityGraph) (v u : CapabilityId) → depends g v u ≡ true → contains (ids g) v ≡ true
depends-ids g v u h = (depends-known g g.dependencies u v h).0

module _ (g : CapabilityGraph) (once : distinct (ids g) ≡ true) where
  abbrev starting : Map CapabilityId ℕ
  starting = in_degrees (ids g) g.dependencies (zeros (ids g) [])

  abbrev waiting : Map CapabilityId (List CapabilityId)
  waiting = neighbors (ids g) g.dependencies []

  dependents-depends : (u v : CapabilityId) → contains (dependents waiting u) v ≡ depends g v u
  unfolding contains get
  dependents-depends u v = ground (arith, contains-neighbors (ids g) g.dependencies [] u v)

  starting-Kept : Kept waiting (ids g) starting (free starting) []
  unfolding contains distinct get
  starting-Kept =
      let zero_first = zeros-start (ids g) [] refl (λ v. refl) in
      let degrees =
        in_degrees-start (ids g) g.dependencies (zeros (ids g) []) zero_first.0
          (λ v h. ground (arith, zero_first.2 v h)) in
      let first = free-start starting degrees.0 in
      let same : (v : CapabilityId) → degree starting v ≡ pending waiting (ids g) [] v = λ v.
        omega (
          arith,
          degrees.1 v,
          zero_first.1 v,
          pending-neighbors (ids g) g.dependencies [] v once,
          pending-nothing (ids g) v,
        ) in
      record {
        counted = same;
        waits_not = λ v m. sym (same v) ∙ (first.1 v m).0;
        known = λ v m. degrees.2 v (first.1 v m).1;
        queued_once = first.0;
        taken_once = refl;
        apart = λ v m. refl;
        taken = λ v m. absurd (cc m);
        within = tt;
        in_order = tt;
        freed = λ v m z. ground (arith, start-free (ids g) g.dependencies v m (same v ∙ z));
      }

  known :
      (u v : CapabilityId) → contains (dependents waiting u) v ≡ true → contains (ids g) v ≡ true
  known u v h = (depends-known g g.dependencies u v (sym (dependents-depends u v) ∙ h)).0

  -- With ranks, every node is taken.
  all_taken :
      (order : List CapabilityId) (rank : CapabilityId → ℕ)
      → Took waiting (ids g) once known (some order)
      → Ranks g rank
      → (n : ℕ) (v : CapabilityId) → rank v < n
      → contains (ids g) v ≡ true
      → contains order v ≡ true
  all_taken order rank h ranks zero v below m = absurd (omega (arith, below))
  all_taken order rank h ranks (suc n) v below m = h.3 v m (
      pending-done waiting (ids g) order v (λ u mu e.
        all_taken order rank h ranks n u
          (omega (arith, below, ranks v u (sym (dependents-depends u v) ∙ e))) mu))

  OrderedAfter-InOrder :
      (seen order : List CapabilityId)
      → OrderedAfter waiting (ids g) seen order
      → InOrder g seen order
  OrderedAfter-InOrder seen [] h = tt
  OrderedAfter-InOrder seen (v ∷ order) h = (
    λ u e. h.0 u (depends-known g g.dependencies u v e).1 (dependents-depends u v ∙ e),
    OrderedAfter-InOrder (seen ++ v ∷ []) order h.1,
  )

  checked :
      (taken : Option (List CapabilityId))
      → Took waiting (ids g) once known taken
      → Explained g (checked_order (ids g) taken)
  unfolding checked_order
  checked none h = h
  checked (some order) h = elim (Bool-cases (nat_beq (length order) (length (ids g)))) [
    | inl full ↦
        let same : length (ids g) ≤ length order = ground (arith, full) in
        rw full (
          h.0,
          λ v.
              ground
                (arith, covers order (ids g) v h.0 h.1 same, Subset-contains order (ids g) v h.1),
          OrderedAfter-InOrder [] order h.2,
        )
    | inr short ↦ rw short (λ rank ranks.
        let all_there : Subset (ids g) order =
          contains-Subset (ids g) order
            (λ v m. all_taken order rank h ranks (suc (rank v)) v (omega arith) m) in
        let one = length-le_of_distinct order (ids g) h.0 h.1 in
        let two = length-le_of_distinct (ids g) order once all_there in
        absurd (ground (arith, one, two, short)))
  ]

  -- The sort always answers. An order that it returns has each node once, after everything it
  -- depends on; and it reports a cycle only if the nodes cannot be ranked.
  pub topological_sort_lem : Explained g (topological_sort g)
  unfolding topological_sort
  topological_sort_lem = checked _ (
      take_free-Took waiting (ids g) once known (length (ids g)) starting (free starting) []
        starting-Kept (omega arith))
