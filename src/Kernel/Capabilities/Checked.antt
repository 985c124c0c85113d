-- ===== src/Kernel/Capabilities/Checked.antt =====
-- What `validate` of crates/fusion-kernel/src/capability/graph.rs accepts, for graphs that its other
-- methods built.
use fusion_router.Prelude.{
  ℕ, suc, ◌<◌, ◌≡◌, refl, sym, subst, ◌∙◌, ◌↔◌, ◌⊎◌, true, false, not, ◌&&◌, List, [], ◌∷◌, ◌++◌,
  Option, none, some, arith, nat_beq, nat_beq_iff, nat_eq, any, if◌then◌else◌, Bool-cases, inl, inr,
}
use fusion_router.Prelude.Sets.{contains}
use fusion_router.Prelude.Counting.{distinct}
use fusion_router.Prelude.Maps.{Map}
use fusion_router.Kernel.Capabilities.{
  CapabilityId, CapabilityContract, Permission, DependencyEdge, ConflictEdge, CapabilityGraph, ids,
  new, add_node, add_dependency, add_conflict, is_broad, broad_grant, GraphError, check_grants,
  check_conflicts, check_missing, Sorted, sorted, cyclic, out_of_fuel, topological_sort, Validated,
  valid, check_order, or_else, validate,
}
use fusion_router.Kernel.Capabilities.Sorting.{contains-append}
use fusion_router.Kernel.Capabilities.Starting.{distinct-keys-put}
use fusion_router.Kernel.Capabilities.Ordered.{
  depends, Ranks, InOrder, Explained, depends-ids, topological_sort_lem,
}

pub data Change : Type 0 where
  node : CapabilityContract → Change
  dependency conflict : CapabilityId → CapabilityId → Change

abbrev pub apply : Change → CapabilityGraph → CapabilityGraph
apply (node contract) g = add_node contract g
apply (dependency from to) g = add_dependency from to g
apply (conflict a b) g = add_conflict a b g

-- A graph after the calls, the last one first.
abbrev pub built : List Change → CapabilityGraph
built [] = new
built (c ∷ changes) = apply c (built changes)

built-distinct : (changes : List Change) → distinct (ids (built changes)) ≡ true
unfolding distinct new add_node add_dependency add_conflict
built-distinct [] = refl
built-distinct (node contract ∷ changes) =
    distinct-keys-put contract.id contract (built changes).nodes (built-distinct changes)
built-distinct (dependency from to ∷ changes) = built-distinct changes
built-distinct (conflict a b ∷ changes) = built-distinct changes

-- The position in an order is a rank.
abbrev pub place : List CapabilityId → CapabilityId → ℕ
place [] v = 0
place (x ∷ order) v = if nat_beq x v then 0 else suc (place order v)

place-lt :
    (g : CapabilityGraph) (seen order : List CapabilityId) (v u : CapabilityId)
    → InOrder g seen order
    → contains order v ≡ true
    → depends g v u ≡ true
    → (contains seen u ≡ true) ⊎ (place order u < place order v)
unfolding contains
place-lt g seen [] v u h m e = absurd (cc m)
place-lt g seen (x ∷ order) v u h m e = elim (Bool-cases (nat_beq x v)) [
  | inl here ↦ inl (h.0 u (subst (λ k. depends g k u ≡ true) (sym ((nat_beq_iff x v).0 here)) e))
  | inr there ↦ elim (place-lt g (seen ++ x ∷ []) order v u h.1 (ground (arith, m, there)) e) [
    | inl before ↦ elim (Bool-cases (contains seen u)) [
      | inl yet ↦ inl yet
      | inr not_yet ↦ inr (ground (arith, before, contains-append seen (x ∷ []) u, there, not_yet))
    ]
    | inr less ↦ inr (ground (arith, less, there))
  ]
]

place-Ranks :
    (g : CapabilityGraph) (order : List CapabilityId)
    → Explained g (sorted order)
    → Ranks g (place order)
unfolding contains
place-Ranks g order h v u e =
    let m : contains order v ≡ true = h.1 v ∙ depends-ids g v u e in
    elim (place-lt g [] order v u h.2 m e) [ inl no_one ↦ absurd (cc no_one) | inr less ↦ less ]

-- What a graph must be like, check by check.
pub record Admissible (g : CapabilityGraph) : Type 0 where
  pub no_broad_grant : any (λ n. any is_broad n.1.permissions) g.nodes ≡ false
  pub no_conflict :
      any (λ c. contains (ids g) c.capability_a && contains (ids g) c.capability_b) g.conflicts
      ≡ false
  pub nothing_missing :
      any (λ d. contains (ids g) d.source && not (contains (ids g) d.target)) g.dependencies ≡ false
  pub rank : CapabilityId → ℕ
  pub ranked : Ranks g rank

broad_grant-any :
    (perms : List Permission) → (broad_grant perms ≡ none) ↔ (any is_broad perms ≡ false)
unfolding broad_grant
broad_grant-any [] = (λ h. refl, λ h. refl)
broad_grant-any (p ∷ perms) = ground (arith, broad_grant-any perms)

check_grants-any :
    (nodes : Map CapabilityId CapabilityContract)
    → (check_grants nodes ≡ none) ↔ (any (λ n. any is_broad n.1.permissions) nodes ≡ false)
unfolding check_grants
check_grants-any [] = (λ h. refl, λ h. refl)
check_grants-any ((id, c) ∷ nodes) =
    ground (arith, check_grants-any nodes, broad_grant-any c.permissions)

check_conflicts-any :
    (nodes : List CapabilityId) (cs : List ConflictEdge)
    → (check_conflicts nodes cs ≡ none)
      ↔ (any (λ c. contains nodes c.capability_a && contains nodes c.capability_b) cs ≡ false)
unfolding check_conflicts
check_conflicts-any nodes [] = (λ h. refl, λ h. refl)
check_conflicts-any nodes (c ∷ cs) = ground (arith, check_conflicts-any nodes cs)

check_missing-any :
    (nodes : List CapabilityId) (deps : List DependencyEdge)
    → (check_missing nodes deps ≡ none)
      ↔ (any (λ d. contains nodes d.source && not (contains nodes d.target)) deps ≡ false)
unfolding check_missing
check_missing-any nodes [] = (λ h. refl, λ h. refl)
check_missing-any nodes (d ∷ deps) = ground (arith, check_missing-any nodes deps)

or_else-valid :
    (o : Option GraphError) (rest : Validated)
    → or_else o rest ≡ valid
    → (o ≡ none) × (rest ≡ valid)
or_else-valid none rest h = (refl, h)
or_else-valid (some e) rest h = absurd (cc h)

check_order-Ranks :
    (g : CapabilityGraph) (s : Sorted)
    → Explained g s
    → check_order s ≡ valid
    → (rank : CapabilityId → ℕ) × Ranks g rank
check_order-Ranks g (sorted order) h e = (place order, place-Ranks g order h)
check_order-Ranks g cyclic h e = absurd (cc e)
check_order-Ranks g out_of_fuel h e = absurd h

check_order-valid :
    (g : CapabilityGraph) (s : Sorted) (rank : CapabilityId → ℕ)
    → Explained g s
    → Ranks g rank
    → check_order s ≡ valid
check_order-valid g (sorted order) rank h r = refl
check_order-valid g cyclic rank h r = absurd (h rank r)
check_order-valid g out_of_fuel rank h r = absurd h

-- A graph that was built by any calls is valid exactly if no node declares an overly broad grant, no
-- two nodes conflict, no node depends on a missing one, and the nodes can be ranked so that each is
-- above what it depends on.
pub validate_lem :
    (changes : List Change) → (validate (built changes) ≡ valid) ↔ Admissible (built changes)
unfolding validate
validate_lem changes =
    let g = built changes in
    let explained = topological_sort_lem g (built-distinct changes) in
    (
      λ h.
          let one = or_else-valid _ _ h in
          let two = or_else-valid _ _ one.1 in
          let three = or_else-valid _ _ two.1 in
          let ranks = check_order-Ranks g (topological_sort g) explained three.1 in
          record {
            no_broad_grant = (check_grants-any g.nodes).0 one.0;
            no_conflict = (check_conflicts-any (ids g) g.conflicts).0 two.0;
            nothing_missing = (check_missing-any (ids g) g.dependencies).0 three.0;
            rank = ranks.0;
            ranked = ranks.1;
          },
      λ a.
          rw
            (
              (check_grants-any g.nodes).1 a.no_broad_grant,
              (check_conflicts-any (ids g) g.conflicts).1 a.no_conflict,
              (check_missing-any (ids g) g.dependencies).1 a.nothing_missing,
            )
            (check_order-valid g (topological_sort g) a.rank explained a.ranked),
    )
