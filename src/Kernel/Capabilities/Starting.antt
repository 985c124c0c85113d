-- ===== src/Kernel/Capabilities/Starting.antt =====
-- The degrees and neighbours that `topological_sort` of
-- crates/fusion-kernel/src/capability/graph.rs starts from.
use fusion_router.Prelude.{
  ℕ, ◌+◌, ◌≡◌, refl, subst, ap, true, ◌&&◌, ◌||◌, List, [], ◌∷◌, arith, nat_beq, nat_beq_iff,
  nat_eq, length, keep, Bool-cases, inl, inr,
}
use fusion_router.Prelude.Sets.{contains}
use fusion_router.Prelude.Counting.{distinct}
use fusion_router.Prelude.Maps.{Map, get, get_or, put, get-put, increment}
use fusion_router.Kernel.Capabilities.{
  CapabilityId, keys, DependencyEdge, is_present, zeros, in_degrees, free,
}
use fusion_router.Kernel.Capabilities.Sorting.{degree}

contains-keys-put {ℓ} :
    {V : Type ℓ} (k v : CapabilityId) (x : V) (m : Map CapabilityId V)
    → contains (keys (put k x m)) v ≡ (nat_beq k v || contains (keys m) v)
unfolding contains put
contains-keys-put k v x [] = ground arith
contains-keys-put k v x ((j, w) ∷ m) =
    ground (arith, contains-keys-put k v x m, nat_beq_iff j k, nat_beq_iff j v, nat_beq_iff k v)

pub distinct-keys-put {ℓ} :
    {V : Type ℓ} (k : CapabilityId) (x : V) (m : Map CapabilityId V)
    → distinct (keys m) ≡ true
    → distinct (keys (put k x m)) ≡ true
unfolding distinct put contains
distinct-keys-put k x [] d = refl
distinct-keys-put k x ((j, w) ∷ m) d =
    ground
      (arith, distinct-keys-put k x m, contains-keys-put k j x m, nat_beq_iff j k, nat_beq_iff k j)

-- All degrees are 0 at first, and only nodes have one.
pub zeros-start :
    (ids : List CapabilityId) (m : Map CapabilityId ℕ)
    → distinct (keys m) ≡ true
    → ((v : CapabilityId) → degree m v ≡ 0)
    → (distinct (keys (zeros ids m)) ≡ true)
      × ((v : CapabilityId) → degree (zeros ids m) v ≡ 0)
      × ((v : CapabilityId)
          → contains (keys (zeros ids m)) v ≡ true
          → (contains ids v || contains (keys m) v) ≡ true)
unfolding zeros contains
zeros-start [] m d z = (d, z, λ v h. h)
zeros-start (id ∷ ids) m d z =
    let rest =
      zeros-start ids (put id 0 m) (distinct-keys-put id 0 m d)
        (λ v. ground (arith, z v, get-put id v 0 m)) in
    (rest.0, rest.1, λ v h. ground (arith, rest.2 v h, contains-keys-put id v 0 m))

-- Each dependency between nodes counts once.
abbrev pub counts : List CapabilityId → List DependencyEdge → CapabilityId → ℕ
counts nodes deps v = length (keep (λ d. is_present nodes d && nat_beq d.source v) deps)

pub in_degrees-start :
    (nodes : List CapabilityId) (deps : List DependencyEdge) (m : Map CapabilityId ℕ)
    → distinct (keys m) ≡ true
    → ((v : CapabilityId) → contains (keys m) v ≡ true → contains nodes v ≡ true)
    → (distinct (keys (in_degrees nodes deps m)) ≡ true)
      × ((v : CapabilityId) → degree (in_degrees nodes deps m) v ≡ degree m v + counts nodes deps v)
      × ((v : CapabilityId)
          → contains (keys (in_degrees nodes deps m)) v ≡ true
          → contains nodes v ≡ true)
unfolding in_degrees increment
in_degrees-start nodes [] m d k = (d, λ v. omega arith, k)
in_degrees-start nodes (e ∷ deps) m d k = elim (Bool-cases (is_present nodes e)) [
  | inl there ↦
      let n = get_or e.source 0 m + 1 in
      let source_known : contains nodes e.source ≡ true = ground arith in
      let rest =
        in_degrees-start nodes deps (put e.source n m) (distinct-keys-put e.source n m d)
          (λ v h. known-put e.source v n nodes m source_known (k v) h) in
      rw there (
        rest.0,
        λ v. ground (
          arith,
          rest.1 v,
          get-put e.source v n m,
          ap (λ j. get_or j 0 m) ((nat_beq_iff e.source v).0 _),
        ),
        rest.2,
      )
  | inr absent ↦ rw absent (in_degrees-start nodes deps m d k)
]
  where
    known-put :
        (s v : CapabilityId) (n : ℕ) (nodes : List CapabilityId) (m : Map CapabilityId ℕ)
        → contains nodes s ≡ true
        → (contains (keys m) v ≡ true → contains nodes v ≡ true)
        → contains (keys (put s n m)) v ≡ true
        → contains nodes v ≡ true
    known-put s v n nodes m source_known k h = elim (Bool-cases (nat_beq s v)) [
      | inl here ↦ subst (λ i. contains nodes i ≡ true) ((nat_beq_iff s v).0 here) source_known
      | inr there ↦ k (ground (arith, contains-keys-put s v n m))
    ]

-- The nodes that wait for nothing.
free-keys :
    (m : Map CapabilityId ℕ) (v : CapabilityId)
    → contains (free m) v ≡ true
    → contains (keys m) v ≡ true
unfolding free contains
free-keys [] v h = h
free-keys ((id, deg) ∷ m) v h = ground (arith, free-keys m v)

pub free-start :
    (m : Map CapabilityId ℕ)
    → distinct (keys m) ≡ true
    → (distinct (free m) ≡ true)
      × ((v : CapabilityId)
          → contains (free m) v ≡ true
          → (degree m v ≡ 0) × (contains (keys m) v ≡ true))
unfolding free distinct contains get
free-start [] d = (refl, λ v h. absurd (cc h))
free-start ((id, deg) ∷ m) d =
    let rest = free-start m (ground arith) in
    (
      ground (arith, rest.0, free-keys m id),
      λ v h. (
        ground (arith, rest.1 v, nat_beq_iff id v, free-keys m id, free-keys m v),
        ground (arith, free-keys m v),
      ),
    )

-- Every node has a degree, and those without any are free.
keys-zeros :
    (ids : List CapabilityId) (m : Map CapabilityId ℕ) (v : CapabilityId)
    → (contains ids v || contains (keys m) v) ≡ true
    → contains (keys (zeros ids m)) v ≡ true
unfolding zeros contains
keys-zeros [] m v h = h
keys-zeros (id ∷ ids) m v h =
    keys-zeros ids (put id 0 m) v (ground (arith, h, contains-keys-put id v 0 m))

keys-in_degrees :
    (nodes : List CapabilityId) (deps : List DependencyEdge) (m : Map CapabilityId ℕ)
    (v : CapabilityId)
    → contains (keys m) v ≡ true
    → contains (keys (in_degrees nodes deps m)) v ≡ true
unfolding in_degrees increment
keys-in_degrees nodes [] m v h = h
keys-in_degrees nodes (e ∷ deps) m v h = elim (Bool-cases (is_present nodes e)) [
  | inl there ↦
      let n = get_or e.source 0 m + 1 in
      rw there (
        keys-in_degrees nodes deps (put e.source n m) v
          (ground (arith, h, contains-keys-put e.source v n m)))
  | inr absent ↦ rw absent (keys-in_degrees nodes deps m v h)
]

free-found :
    (m : Map CapabilityId ℕ) (v : CapabilityId)
    → contains (keys m) v ≡ true
    → degree m v ≡ 0
    → contains (free m) v ≡ true
unfolding free contains get
free-found [] v h z = h
free-found ((id, deg) ∷ m) v h z = ground (arith, free-found m v, h, z)

pub start-free :
    (nodes : List CapabilityId) (deps : List DependencyEdge) (v : CapabilityId)
    → contains nodes v ≡ true
    → degree (in_degrees nodes deps (zeros nodes [])) v ≡ 0
    → contains (free (in_degrees nodes deps (zeros nodes []))) v ≡ true
start-free nodes deps v h z =
    free-found (in_degrees nodes deps (zeros nodes [])) v
      (keys-in_degrees nodes deps (zeros nodes []) v (keys-zeros nodes [] v (ground (arith, h)))) z
