-- ===== src/Kernel/Capabilities/Taking.antt =====
-- `topological_sort` of crates/fusion-kernel/src/capability/graph.rs takes each node once, behind all
-- that it depends on.
use fusion_router.Prelude.{
  ℕ, zero, suc, ◌+◌, ◌-◌, ◌≤◌, ◌≡◌, refl, subst, ap, ◌∙◌, true, false, ◌||◌, List, [], ◌∷◌, ◌++◌,
  Option, none, some, arith, nat_beq, nat_beq_iff, nat_eq, length, length-append, if◌then◌else◌,
  Option-cases, inl, inr,
}
use fusion_router.Prelude.Sets.{contains}
use fusion_router.Prelude.Counting.{distinct, Subset, length-le_of_distinct}
use fusion_router.Prelude.Maps.{Map, get, get_or, put, get-put}
use fusion_router.Kernel.Capabilities.{CapabilityId, relax, take_free}
use fusion_router.Kernel.Capabilities.Sorting.{
  occurs, occurs-contains, degree, relax-degree, relax-queue, contains-append, dependents, pending,
  pending-take, pending-zero,
}

distinct-snoc :
    (xs : List CapabilityId) (x : CapabilityId)
    → distinct xs ≡ true
    → contains xs x ≡ false
    → distinct (xs ++ x ∷ []) ≡ true
unfolding distinct contains
distinct-snoc [] x d h = refl
distinct-snoc (y ∷ xs) x d h =
    ground
      (arith, distinct-snoc xs x, contains-append xs (x ∷ []) y, nat_beq_iff x y, nat_beq_iff y x)

Subset-snoc :
    (xs ys : List CapabilityId) (x : CapabilityId)
    → Subset xs ys
    → contains ys x ≡ true
    → Subset (xs ++ x ∷ []) ys
Subset-snoc [] ys x s m = (m, tt)
Subset-snoc (y ∷ xs) ys x s m = (s.0, Subset-snoc xs ys x s.1 m)

contains-one : (x v : CapabilityId) → contains (x ∷ []) v ≡ nat_beq x v
unfolding contains
contains-one x v = ground arith

degree-at :
    (id v deg : ℕ) (degrees : Map CapabilityId ℕ)
    → get id degrees ≡ some deg
    → nat_beq id v ≡ true
    → degree degrees v ≡ deg
degree-at id v deg degrees there e =
    ground (arith, there, ap (λ k. get_or k 0 degrees) ((nat_beq_iff id v).0 e))

-- What is queued waits for nothing, so it is not queued again.
relax-distinct :
    (ids : List CapabilityId) (degrees : Map CapabilityId ℕ) (queue : List CapabilityId)
    → distinct queue ≡ true
    → ((v : CapabilityId) → occurs v ids ≤ degree degrees v)
    → ((v : CapabilityId) → contains queue v ≡ true → degree degrees v ≡ 0)
    → distinct (relax ids degrees queue).1 ≡ true
unfolding relax
relax-distinct [] degrees queue d enough idle = d
relax-distinct (id ∷ ids) degrees queue d enough idle = elim (Option-cases (get id degrees)) [
  | inl absent ↦ absurd (ground (arith, enough id, absent, nat_beq_iff id id))
  | inr (deg, there) ↦
      let here =
        λ (v : CapabilityId) (e : nat_beq id v ≡ true). degree-at id v deg degrees there e in
      let lower = put id (deg - 1) degrees in
      let queued = if nat_beq (deg - 1) 0 then queue ++ id ∷ [] else queue in
      let positive : 1 ≤ deg = ground (arith, enough id, there, nat_beq_iff id id) in
      let absent : contains queue id ≡ false = ground (arith, idle id, there) in
      let queued_distinct : distinct queued ≡ true =
        ground (arith, distinct-snoc queue id d absent, d) in
      rw (there, relax)
        (relax-distinct ids lower queued queued_distinct
          (λ v. ground (arith, enough v, here v, get-put id v (deg - 1) degrees))
          (λ v m. ground (
            arith,
            idle v,
            here v,
            m,
            contains-one id v,
            contains-append queue (id ∷ []) v,
            get-put id v (deg - 1) degrees,
          )))
]

module _ (adj : Map CapabilityId (List CapabilityId)) (nodes : List CapabilityId) where
  -- Everything that a node depends on comes before it.
  abbrev pub OrderedAfter : List CapabilityId → List CapabilityId → Type 0
  OrderedAfter seen [] = Unit
  OrderedAfter seen (v ∷ order) =
      ((u : CapabilityId)
        → contains nodes u ≡ true
        → contains (dependents adj u) v ≡ true
        → contains seen u ≡ true)
      × OrderedAfter (seen ++ v ∷ []) order

  OrderedAfter-snoc :
      (seen order : List CapabilityId) (c : CapabilityId)
      → OrderedAfter seen order
      → ((u : CapabilityId)
          → contains nodes u ≡ true
          → contains (dependents adj u) c ≡ true
          → (contains seen u || contains order u) ≡ true)
      → OrderedAfter seen (order ++ c ∷ [])
  unfolding contains
  OrderedAfter-snoc seen [] c h before = (λ u m e. ground (arith, before u m e), tt)
  OrderedAfter-snoc seen (v ∷ order) c h before = (
    h.0,
    OrderedAfter-snoc (seen ++ v ∷ []) order c h.1
        (λ u m e. ground (arith, before u m e, contains-append seen (v ∷ []) u)),
  )

  pub record Kept (degrees : Map CapabilityId ℕ) (queue order : List CapabilityId) : Type 0 where
    pub counted : (v : CapabilityId) → degree degrees v ≡ pending adj nodes order v
    pub waits_not : (v : CapabilityId) → contains queue v ≡ true → pending adj nodes order v ≡ 0
    pub known : (v : CapabilityId) → contains queue v ≡ true → contains nodes v ≡ true
    pub queued_once : distinct queue ≡ true
    pub taken_once : distinct order ≡ true
    pub apart : (v : CapabilityId) → contains queue v ≡ true → contains order v ≡ false
    pub taken : (v : CapabilityId) → contains order v ≡ true → pending adj nodes order v ≡ 0
    pub within : Subset order nodes
    pub in_order : OrderedAfter [] order
    pub freed :
        (v : CapabilityId)
        → contains nodes v ≡ true
        → pending adj nodes order v ≡ 0
        → (contains queue v || contains order v) ≡ true

  -- The dependents of a node are nodes.
  module _ (once : distinct nodes ≡ true)
      (closed : (u v : CapabilityId)
        → contains (dependents adj u) v ≡ true
        → contains nodes v ≡ true) where
    take-Kept :
        (degrees : Map CapabilityId ℕ) (current : CapabilityId) (queue order : List CapabilityId)
        → Kept degrees (current ∷ queue) order
        → Kept
            (relax (dependents adj current) degrees queue).0
            (relax (dependents adj current) degrees queue).1
            (order ++ current ∷ [])
    unfolding contains distinct
    take-Kept degrees current queue order h =
        let ids = dependents adj current in
        let member = h.known current (ground (arith, nat_beq_iff current current)) in
        let fresh = h.apart current (ground (arith, nat_beq_iff current current)) in
        let less = λ (v : CapabilityId). pending-take adj nodes order current v once member fresh in
        let enough = λ (v : CapabilityId). le-of v degrees order current (h.counted v) (less v) in
        let queued = λ (v : CapabilityId). relax-queue ids degrees queue v (enough v) in
        let idle = h.waits_not current (ground (arith, nat_beq_iff current current)) in
        let same_pending = λ (v : CapabilityId) (e : nat_beq current v ≡ true).
          subst (λ k. pending adj nodes order k ≡ 0) ((nat_beq_iff current v).0 e) idle in
        let not_queued = λ (v : CapabilityId) (e : nat_beq current v ≡ true).
          subst (λ k. contains queue k ≡ false) ((nat_beq_iff current v).0 e)
            (ground (arith, h.queued_once)) in
        record {
          counted = λ v. ground (arith, relax-degree ids degrees queue v, h.counted v, less v);
          waits_not = λ v m. ground (arith, queued v, h.waits_not v, less v, h.counted v);
          known = λ v m.
              ground (arith, queued v, h.known v, closed current v, occurs-contains v ids, m);
          queued_once =
              relax-distinct ids degrees queue (ground (arith, h.queued_once)) enough
                (λ v m. h.counted v ∙ h.waits_not v (ground arith));
          taken_once = distinct-snoc order current h.taken_once fresh;
          apart = λ v m. ground (
            arith,
            queued v,
            m,
            h.apart v,
            h.taken v,
            h.counted v,
            contains-append order (current ∷ []) v,
            contains-one current v,
            same_pending v,
            not_queued v,
          );
          taken = λ v m. ground (
            arith,
            h.taken v,
            less v,
            contains-append order (current ∷ []) v,
            contains-one current v,
            same_pending v,
            m,
          );
          within = Subset-snoc order nodes current h.within member;
          in_order = OrderedAfter-snoc [] order current h.in_order (λ u m e. ground (
            arith,
            pending-zero adj nodes order u current
                (h.waits_not current (ground (arith, nat_beq_iff current current))) m e,
          ));
          freed = λ v m z. ground (
            arith,
            queued v,
            h.freed v,
            h.counted v,
            less v,
            m,
            z,
            contains-append order (current ∷ []) v,
            contains-one current v,
          );
        }
      where
        le-of :
            (v : CapabilityId) (degrees : Map CapabilityId ℕ) (order : List CapabilityId)
            (current : CapabilityId)
            → degree degrees v ≡ pending adj nodes order v
            → pending adj nodes (order ++ current ∷ []) v + occurs v (dependents adj current)
              ≡ pending adj nodes order v
            → occurs v (dependents adj current) ≤ degree degrees v
        le-of v degrees order current c l = omega (arith, c, l)

    no-room :
        (degrees : Map CapabilityId ℕ) (current : CapabilityId) (queue order : List CapabilityId)
        → Kept degrees (current ∷ queue) order
        → length nodes ≤ length order
        → ⊥
    unfolding contains distinct
    no-room degrees current queue order h enough =
        let member = h.known current (ground (arith, nat_beq_iff current current)) in
        let fresh = h.apart current (ground (arith, nat_beq_iff current current)) in
        omega (
          arith,
          enough,
          length-le_of_distinct (current ∷ order) nodes (ground (arith, fresh, h.taken_once))
              (member, h.within),
        )

    -- The fuel is enough, and the order that comes out is distinct, in order, and as far as it goes.
    abbrev pub Took : Option (List CapabilityId) → Type 0
    Took none = ⊥
    Took (some order) =
        (distinct order ≡ true)
        × Subset order nodes
        × OrderedAfter [] order
        × ((v : CapabilityId)
            → contains nodes v ≡ true
            → pending adj nodes order v ≡ 0
            → contains order v ≡ true)

    pub take_free-Took :
        (fuel : ℕ) (degrees : Map CapabilityId ℕ) (queue order : List CapabilityId)
        → Kept degrees queue order
        → length nodes ≤ fuel + length order
        → Took (take_free adj fuel degrees queue order)
    unfolding take_free contains
    take_free-Took fuel degrees [] order h enough = (h.taken_once, h.within, h.in_order, h.freed)
    take_free-Took zero degrees (current ∷ queue) order h enough =
        absurd (no-room degrees current queue order h (omega (arith, enough)))
    take_free-Took (suc fuel) degrees (current ∷ queue) order h enough =
        take_free-Took fuel _ _ (order ++ current ∷ []) (take-Kept degrees current queue order h)
          (omega (arith, enough, length-append order (current ∷ [])))
