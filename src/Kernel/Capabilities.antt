-- ===== src/Kernel/Capabilities.antt =====
-- The graph of capabilities: crates/fusion-kernel/src/capability/graph.rs. An id, of
-- which only equality is used, is a number.
pub mod Sorting
pub mod Starting
pub mod Taking
pub mod Neighbors
pub mod Ordered
pub mod Checked
use fusion_router.Prelude.{
  ℕ, zero, suc, ◌-◌, Bool, false, not, ◌&&◌, ◌||◌, List, [], ◌∷◌, ◌++◌, Option, none, some, nat_beq,
  nat_eq, if◌then◌else◌, length, find, map, Text, text_eq, codes, ◌==◌,
}
use fusion_router.Prelude.Sets.{contains}
use fusion_router.Prelude.Maps.{Map, get, get_or, put, push_at, increment}

abbrev pub CapabilityId : Type 0
CapabilityId = ℕ

pub data Permission : Type 0 where
  network : Permission
  filesystem http secrets environment : Text → Permission

-- Of a contract, what the kernel's graph and registry read.
pub record CapabilityContract : Type 0 where
  pub id : CapabilityId
  pub permissions : List Permission

abbrev pub keys {ℓ} : {V : Type ℓ} → Map CapabilityId V → List CapabilityId
keys m = map (λ p. p.0) m

-- `source` (the field `from`) depends on `target` (the field `to`).
pub record DependencyEdge : Type 0 where
  pub source : CapabilityId
  pub target : CapabilityId

pub record ConflictEdge : Type 0 where
  pub capability_a : CapabilityId
  pub capability_b : CapabilityId

pub record CapabilityGraph : Type 0 where
  pub nodes : Map CapabilityId CapabilityContract
  pub dependencies : List DependencyEdge
  pub conflicts : List ConflictEdge

unfoldable pub new : CapabilityGraph
new = record { nodes = []; dependencies = []; conflicts = [] }

unfoldable pub add_node : CapabilityContract → CapabilityGraph → CapabilityGraph
add_node contract g = record g { nodes = put contract.id contract g.nodes }

unfoldable pub add_dependency : CapabilityId → CapabilityId → CapabilityGraph → CapabilityGraph
add_dependency from to g = record g {
  dependencies = g.dependencies ++ record { source = from; target = to } ∷ [];
}

unfoldable pub add_conflict : CapabilityId → CapabilityId → CapabilityGraph → CapabilityGraph
add_conflict a b g = record g {
  conflicts = g.conflicts ++ record { capability_a = a; capability_b = b } ∷ [];
}

-- The ids of the nodes, in the order that the table happens to have.
abbrev pub ids : CapabilityGraph → List CapabilityId
ids g = keys g.nodes

abbrev pub is_present : List CapabilityId → DependencyEdge → Bool
is_present nodes d = contains nodes d.source && contains nodes d.target

unfoldable pub zeros : List CapabilityId → Map CapabilityId ℕ → Map CapabilityId ℕ
zeros [] m = m
zeros (id ∷ ids) m = zeros ids (put id 0 m)

unfoldable pub in_degrees :
    List CapabilityId → List DependencyEdge → Map CapabilityId ℕ → Map CapabilityId ℕ
in_degrees nodes [] m = m
in_degrees nodes (d ∷ deps) m =
    in_degrees nodes deps (if is_present nodes d then increment d.source m else m)

-- An entry that is missing reads as the empty list, which the code puts there.
unfoldable pub neighbors :
    List CapabilityId
    → List DependencyEdge
    → Map CapabilityId (List CapabilityId)
    → Map CapabilityId (List CapabilityId)
neighbors nodes [] m = m
neighbors nodes (d ∷ deps) m =
    neighbors nodes deps (if is_present nodes d then push_at d.target d.source m else m)

unfoldable pub free : Map CapabilityId ℕ → List CapabilityId
free [] = []
free ((id, deg) ∷ m) = let rest = free m in if nat_beq deg 0 then id ∷ rest else rest

-- One node was taken: what depends on it waits for one node less.
unfoldable pub relax :
    List CapabilityId
    → Map CapabilityId ℕ
    → List CapabilityId
    → Map CapabilityId ℕ × List CapabilityId
relax [] degrees queue = (degrees, queue)
relax (id ∷ ids) degrees queue = elim (get id degrees) [
  | none ↦ relax ids degrees queue
  | some deg ↦
      relax ids (put id (deg - 1) degrees) (if nat_beq (deg - 1) 0 then queue ++ id ∷ [] else queue)
]

-- Each node is taken at most once.
unfoldable pub take_free :
    Map CapabilityId (List CapabilityId)
    → ℕ
    → Map CapabilityId ℕ
    → List CapabilityId
    → List CapabilityId
    → Option (List CapabilityId)
take_free adj fuel degrees [] order = some order
take_free adj zero degrees (_ ∷ _) order = none
take_free adj (suc fuel) degrees (current ∷ queue) order =
    let next = relax (get_or current [] adj) degrees queue in
    take_free adj fuel next.0 next.1 (order ++ current ∷ [])

pub data Sorted : Type 0 where
  sorted : List CapabilityId → Sorted
  cyclic out_of_fuel : Sorted

unfoldable pub checked_order : List CapabilityId → Option (List CapabilityId) → Sorted
checked_order nodes none = out_of_fuel
checked_order nodes (some order) =
    if nat_beq (length order) (length nodes) then sorted order else cyclic

unfoldable pub topological_sort : CapabilityGraph → Sorted
topological_sort g =
    let degrees = in_degrees (ids g) g.dependencies (zeros (ids g) []) in
    let adj = neighbors (ids g) g.dependencies [] in
    checked_order (ids g) (take_free adj (length (ids g)) degrees (free degrees) [])

-- An empty name or a lone star grants everything.
abbrev pub is_broad_name : Text → Bool
is_broad_name s = s == [] || s == codes "*"

abbrev pub is_broad : Permission → Bool
is_broad (http s) = is_broad_name s
is_broad (secrets s) = is_broad_name s
is_broad (environment s) = is_broad_name s
is_broad _ = false

unfoldable pub broad_grant : List Permission → Option Permission
broad_grant perms = find is_broad perms

-- The messages of `validate`, with what they name.
pub data GraphError : Type 0 where
  overly_broad : CapabilityId → Permission → GraphError
  conflicting unresolved : CapabilityId → CapabilityId → GraphError
  cyclic_dependency : GraphError

unfoldable pub check_grants : Map CapabilityId CapabilityContract → Option GraphError
check_grants [] = none
check_grants ((id, contract) ∷ nodes) = elim (broad_grant contract.permissions) [
  | some broad ↦ some (overly_broad contract.id broad)
  | none ↦ check_grants nodes
]

unfoldable pub check_conflicts : List CapabilityId → List ConflictEdge → Option GraphError
check_conflicts nodes [] = none
check_conflicts nodes (c ∷ conflicts) =
    if contains nodes c.capability_a && contains nodes c.capability_b
    then some (conflicting c.capability_a c.capability_b)
    else check_conflicts nodes conflicts

unfoldable pub check_missing : List CapabilityId → List DependencyEdge → Option GraphError
check_missing nodes [] = none
check_missing nodes (d ∷ deps) =
    if contains nodes d.source && not (contains nodes d.target)
    then some (unresolved d.source d.target)
    else check_missing nodes deps

pub data Validated : Type 0 where
  valid : Validated
  invalid : GraphError → Validated
  unanswered : Validated

abbrev pub check_order : Sorted → Validated
check_order (sorted order) = valid
check_order cyclic = invalid cyclic_dependency
check_order out_of_fuel = unanswered

-- The first check that fails decides.
abbrev pub or_else : Option GraphError → Validated → Validated
or_else none rest = rest
or_else (some e) rest = invalid e

unfoldable pub validate : CapabilityGraph → Validated
validate g = or_else (check_grants g.nodes) (
    or_else (check_conflicts (ids g) g.conflicts)
      (or_else (check_missing (ids g) g.dependencies) (check_order (topological_sort g))))
