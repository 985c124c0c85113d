-- ===== src/Kernel/Capabilities/Neighbors.antt =====
-- The lists of neighbours that `topological_sort` of crates/fusion-kernel/src/capability/graph.rs makes.
use fusion_router.Prelude.{
  ◌+◌, ◌≡◌, refl, sym, subst, ap, true, false, ◌&&◌, ◌||◌, List, [], ◌∷◌, ◌++◌, arith, nat_beq,
  nat_beq_iff, nat_eq, any, if◌then◌else◌, Bool-cases, inl, inr,
}
use fusion_router.Prelude.Sets.{contains}
use fusion_router.Prelude.Counting.{distinct}
use fusion_router.Prelude.Maps.{Map, get, get_or, get-put, push_at}
use fusion_router.Kernel.Capabilities.{CapabilityId, DependencyEdge, is_present, neighbors}
use fusion_router.Kernel.Capabilities.Sorting.{occurs, dependents, contains-append, pending}
use fusion_router.Kernel.Capabilities.Starting.{counts}

push-dependents :
    (k x u : CapabilityId) (m : Map CapabilityId (List CapabilityId))
    → dependents (push_at k x m) u
      ≡ (if nat_beq k u then dependents m k ++ x ∷ [] else dependents m u)
unfolding push_at
push-dependents k x u m = ground (arith, get-put k u (get_or k [] m ++ x ∷ []) m)

occurs-snoc :
    (v x : CapabilityId) (ids : List CapabilityId)
    → occurs v (ids ++ x ∷ []) ≡ occurs v ids + (if nat_beq x v then 1 else 0)
occurs-snoc v x [] = ground arith
occurs-snoc v x (i ∷ ids) = ground (arith, occurs-snoc v x ids)

push-occurs :
    (k x u v : CapabilityId) (m : Map CapabilityId (List CapabilityId))
    → occurs v (dependents (push_at k x m) u)
      ≡ occurs v (dependents m u) + (if nat_beq k u && nat_beq x v then 1 else 0)
push-occurs k x u v m = elim (Bool-cases (nat_beq k u)) [
  | inl here ↦
      let same : k ≡ u = (nat_beq_iff k u).0 here in
      let now : dependents (push_at k x m) u ≡ dependents m u ++ x ∷ [] =
        ground (arith, push-dependents k x u m, ap (dependents m) same) in
      rw (now, here) (occurs-snoc v x (dependents m u))
  | inr there ↦
      let now : dependents (push_at k x m) u ≡ dependents m u =
        ground (arith, push-dependents k x u m) in
      rw (now, there) (omega arith)
]

pending-push :
    (k x v : CapabilityId) (nodes : List CapabilityId) (m : Map CapabilityId (List CapabilityId))
    → distinct nodes ≡ true
    → pending (push_at k x m) nodes [] v
      ≡ pending m nodes [] v + (if contains nodes k && nat_beq x v then 1 else 0)
unfolding contains distinct
pending-push k x v [] m d = ground arith
pending-push k x v (u ∷ nodes) m d = elim (Bool-cases (nat_beq k u)) [
  | inl here ↦
      let same : k ≡ u = (nat_beq_iff k u).0 here in
      let gone : contains nodes k ≡ false =
        subst (λ i. contains nodes i ≡ false) (sym same) (ground arith) in
      let back : nat_beq u k ≡ true = (nat_beq_iff u k).1 (sym same) in
      let rest = pending-push k x v nodes m (ground arith) in
      let one = push-occurs k x u v m in ground (arith, rest, one, gone, back, here)
  | inr there ↦
      let rest = pending-push k x v nodes m (ground arith) in
      let one = push-occurs k x u v m in
      let apart : nat_beq u k ≡ false = ground (arith, nat_beq_iff u k, nat_beq_iff k u) in
      ground (arith, rest, one, there, apart)
]

pub pending-neighbors :
    (nodes : List CapabilityId) (deps : List DependencyEdge)
    (m : Map CapabilityId (List CapabilityId)) (v : CapabilityId)
    → distinct nodes ≡ true
    → pending (neighbors nodes deps m) nodes [] v ≡ pending m nodes [] v + counts nodes deps v
unfolding neighbors
pending-neighbors nodes [] m v d = omega arith
pending-neighbors nodes (e ∷ deps) m v d = elim (Bool-cases (is_present nodes e)) [
  | inl there ↦
      let rest = pending-neighbors nodes deps (push_at e.target e.source m) v d in
      let pushed = pending-push e.target e.source v nodes m d in
      let target_known : contains nodes e.target ≡ true = ground arith in
      rw there (ground (arith, rest, pushed, target_known))
  | inr absent ↦ rw absent (pending-neighbors nodes deps m v d)
]

pub pending-nothing : (nodes : List CapabilityId) (v : CapabilityId) → pending [] nodes [] v ≡ 0
unfolding get contains
pending-nothing [] v = refl
pending-nothing (u ∷ nodes) v = ground (arith, pending-nothing nodes v)

contains-push :
    (k x u v : CapabilityId) (m : Map CapabilityId (List CapabilityId))
    → contains (dependents (push_at k x m) u) v
      ≡ (contains (dependents m u) v || (nat_beq x v && nat_beq k u))
unfolding contains
contains-push k x u v m = elim (Bool-cases (nat_beq k u)) [
  | inl here ↦
      let same : k ≡ u = (nat_beq_iff k u).0 here in
      let now : dependents (push_at k x m) u ≡ dependents m u ++ x ∷ [] =
        ground (arith, push-dependents k x u m, ap (dependents m) same) in
      rw (now, here) (ground (arith, contains-append (dependents m u) (x ∷ []) v))
  | inr there ↦
      let now : dependents (push_at k x m) u ≡ dependents m u =
        ground (arith, push-dependents k x u m) in
      rw (now, there) (ground arith)
]

pub contains-neighbors :
    (nodes : List CapabilityId) (deps : List DependencyEdge)
    (m : Map CapabilityId (List CapabilityId)) (u v : CapabilityId)
    → contains (dependents (neighbors nodes deps m) u) v ≡ (
        contains (dependents m u) v
        || any (λ d. is_present nodes d && (nat_beq d.source v && nat_beq d.target u)) deps)
unfolding neighbors
contains-neighbors nodes [] m u v = ground arith
contains-neighbors nodes (e ∷ deps) m u v = elim (Bool-cases (is_present nodes e)) [
  | inl there ↦
      let rest = contains-neighbors nodes deps (push_at e.target e.source m) u v in
      rw there (ground (arith, rest, contains-push e.target e.source u v m))
  | inr absent ↦ rw absent (contains-neighbors nodes deps m u v)
]

occurs-none :
    (v : CapabilityId) (ids : List CapabilityId) → contains ids v ≡ false → occurs v ids ≡ 0
unfolding contains
occurs-none v [] h = refl
occurs-none v (i ∷ ids) h = ground (arith, occurs-none v ids)

-- A node waits for nothing once all that it depends on was taken.
pub pending-done :
    (adj : Map CapabilityId (List CapabilityId)) (nodes order : List CapabilityId)
    (v : CapabilityId)
    → ((u : CapabilityId)
        → contains nodes u ≡ true
        → contains (dependents adj u) v ≡ true
        → contains order u ≡ true)
    → pending adj nodes order v ≡ 0
unfolding contains
pending-done adj [] order v h = refl
pending-done adj (u ∷ nodes) order v h =
    let rest = pending-done adj nodes order v (λ x m e. h x (ground (arith, m)) e) in
    let here = h u (ground (arith, nat_beq_iff u u)) in
    ground (arith, rest, here, occurs-none v (dependents adj u))
