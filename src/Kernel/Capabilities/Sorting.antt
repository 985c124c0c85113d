-- ===== src/Kernel/Capabilities/Sorting.antt =====
-- What is kept by `topological_sort` of crates/fusion-kernel/src/capability/graph.rs while it takes
-- nodes.
use fusion_router.Prelude.{
  ℕ, ◌+◌, ◌-◌, ◌≤◌, ◌≡◌, refl, sym, subst, ap, true, false, ◌&&◌, ◌||◌, List, [], ◌∷◌, ◌++◌, arith,
  nat_beq, nat_beq_iff, nat_eq, length, keep, if◌then◌else◌, Bool-cases, Option-cases, inl, inr,
  ltb,
}
use fusion_router.Prelude.Sets.{contains}
use fusion_router.Prelude.Counting.{distinct}
use fusion_router.Prelude.Maps.{Map, get, get_or, put, get-put}
use fusion_router.Kernel.Capabilities.{CapabilityId, relax}

-- How often an id is in a list.
abbrev pub occurs : CapabilityId → List CapabilityId → ℕ
occurs v ids = length (keep (λ i. nat_beq i v) ids)

abbrev pub degree : Map CapabilityId ℕ → CapabilityId → ℕ
degree degrees v = get_or v 0 degrees

-- Relaxing lowers each degree by the occurrences, and appends those that come to 0.
pub relax-degree :
    (ids : List CapabilityId) (degrees : Map CapabilityId ℕ) (queue : List CapabilityId)
    (v : CapabilityId)
    → degree (relax ids degrees queue).0 v ≡ degree degrees v - occurs v ids
unfolding relax
relax-degree [] degrees queue v = ground arith
relax-degree (id ∷ ids) degrees queue v = elim (Option-cases (get id degrees)) [
  | inl absent ↦
      let rest = relax-degree ids degrees queue v in
      let zero_here : nat_beq id v ≡ true → degree degrees v ≡ 0 =
        λ here. ground (arith, absent, ap (λ k. get_or k 0 degrees) ((nat_beq_iff id v).0 here)) in
      rw (absent, relax) (ground (arith, rest, zero_here))
  | inr (deg, there) ↦
      let rest =
        relax-degree ids (put id (deg - 1) degrees)
          (if nat_beq (deg - 1) 0 then queue ++ id ∷ [] else queue) v in
      let here : nat_beq id v ≡ true → degree degrees v ≡ deg =
        λ h. ground (arith, there, ap (λ k. get_or k 0 degrees) ((nat_beq_iff id v).0 h)) in
      rw (there, relax) (ground (arith, rest, here, get-put id v (deg - 1) degrees))
]

pub contains-append :
    (xs ys : List CapabilityId) (v : CapabilityId)
    → contains (xs ++ ys) v ≡ (contains xs v || contains ys v)
unfolding contains
contains-append [] ys v = ground arith
contains-append (x ∷ xs) ys v = ground (arith, contains-append xs ys v)

pub relax-queue :
    (ids : List CapabilityId) (degrees : Map CapabilityId ℕ) (queue : List CapabilityId)
    (v : CapabilityId)
    → occurs v ids ≤ degree degrees v
    → contains (relax ids degrees queue).1 v
      ≡ (contains queue v || (ltb 0 (occurs v ids) && nat_beq (occurs v ids) (degree degrees v)))
unfolding relax contains
relax-queue [] degrees queue v h = ground arith
relax-queue (id ∷ ids) degrees queue v h = elim (Option-cases (get id degrees)) [
  | inl absent ↦
      let zero_here : nat_beq id v ≡ true → degree degrees v ≡ 0 =
        λ here. ground (arith, absent, ap (λ k. get_or k 0 degrees) ((nat_beq_iff id v).0 here)) in
      rw (absent, relax)
        (ground (arith, relax-queue ids degrees queue v (ground (arith, h, zero_here)), zero_here))
  | inr (deg, there) ↦
      let here : nat_beq id v ≡ true → degree degrees v ≡ deg =
        λ e. ground (arith, there, ap (λ k. get_or k 0 degrees) ((nat_beq_iff id v).0 e)) in
      let lower = put id (deg - 1) degrees in
      let queued = if nat_beq (deg - 1) 0 then queue ++ id ∷ [] else queue in
      let at = get-put id v (deg - 1) degrees in
      let less : occurs v ids ≤ degree lower v = ground (arith, h, here, at) in
      let rest = relax-queue ids lower queued v less in
      let now : contains queued v ≡ (contains queue v || (nat_beq (deg - 1) 0 && nat_beq id v)) =
        ground (arith, contains-append queue (id ∷ []) v) in
      rw (there, relax) (ground (arith, rest, now, h, here, at))
]

pub occurs-contains :
    (v : CapabilityId) (ids : List CapabilityId) → 1 ≤ occurs v ids → contains ids v ≡ true
unfolding contains
occurs-contains v [] h = absurd (omega arith)
occurs-contains v (i ∷ ids) h = ground (arith, occurs-contains v ids)

occurs-some :
    (v : CapabilityId) (ids : List CapabilityId) → contains ids v ≡ true → 1 ≤ occurs v ids
unfolding contains
occurs-some v [] h = absurd (cc h)
occurs-some v (i ∷ ids) h = ground (arith, occurs-some v ids)

-- What waits for nodes not taken yet.
module _ (adj : Map CapabilityId (List CapabilityId)) where
  abbrev pub dependents : CapabilityId → List CapabilityId
  dependents u = get_or u [] adj

  abbrev pub pending : List CapabilityId → List CapabilityId → CapabilityId → ℕ
  pending [] order v = 0
  pending (u ∷ nodes) order v =
      (if contains order u then 0 else occurs v (dependents u)) + pending nodes order v

  pending-other :
      (nodes order : List CapabilityId) (c v : CapabilityId)
      → contains nodes c ≡ false
      → pending nodes (order ++ c ∷ []) v ≡ pending nodes order v
  unfolding contains
  pending-other [] order c v h = refl
  pending-other (u ∷ nodes) order c v h = ground (
    arith,
    pending-other nodes order c v,
    contains-append order (c ∷ []) u,
    nat_beq_iff u c,
    nat_beq_iff c u,
  )

  pub pending-take :
      (nodes order : List CapabilityId) (c v : CapabilityId)
      → distinct nodes ≡ true
      → contains nodes c ≡ true
      → contains order c ≡ false
      → pending nodes (order ++ c ∷ []) v + occurs v (dependents c) ≡ pending nodes order v
  unfolding contains distinct
  pending-take [] order c v d m fresh = absurd (cc m)
  pending-take (u ∷ nodes) order c v d m fresh = elim (Bool-cases (nat_beq u c)) [
    | inl here ↦
        let same : u ≡ c = (nat_beq_iff u c).0 here in
        let now : contains (order ++ c ∷ []) u ≡ true =
          ground (arith, contains-append order (c ∷ []) u, nat_beq_iff c u) in
        let was : contains order u ≡ false =
          subst (λ k. contains order k ≡ false) (sym same) fresh in
        let gone : contains nodes c ≡ false =
          subst (λ k. contains nodes k ≡ false) same (ground arith) in
        rw (now, was)
          (omega
            (arith, pending-other nodes order c v gone, ap (λ k. occurs v (dependents k)) same))
    | inr there ↦
        let rest = pending-take nodes order c v (ground arith) (ground arith) fresh in
        ground (arith, rest, contains-append order (c ∷ []) u, nat_beq_iff c u)
  ]

  pub pending-zero :
      (nodes order : List CapabilityId) (u v : CapabilityId)
      → pending nodes order v ≡ 0
      → contains nodes u ≡ true
      → contains (dependents u) v ≡ true
      → contains order u ≡ true
  unfolding contains
  pending-zero [] order u v h m e = absurd (cc m)
  pending-zero (x ∷ nodes) order u v h m e = elim (Bool-cases (nat_beq x u)) [
    | inl here ↦
        let same : x ≡ u = (nat_beq_iff x u).0 here in
        let some_here : 1 ≤ occurs v (dependents x) =
          occurs-some v (dependents x)
            (subst (λ k. contains (dependents k) v ≡ true) (sym same) e) in
        subst (λ k. contains order k ≡ true) same (ground arith)
    | inr there ↦ pending-zero nodes order u v (ground arith) (ground arith) e
  ]
