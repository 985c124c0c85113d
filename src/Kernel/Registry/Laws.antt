-- ===== src/Kernel/Registry/Laws.antt =====
-- What the registry of crates/fusion-kernel/src/capability/registry.rs holds after any calls, and what
-- that means for the graph of crates/fusion-kernel/src/capability/graph.rs.
use fusion_router.Prelude.{
  ◌≡◌, refl, ◌↔◌, Bool, true, false, List, [], ◌∷◌, Option, none, some, arith, nat_eq,
  if◌then◌else◌, text_eq,
}
use fusion_router.Prelude.Sets.{contains}
use fusion_router.Prelude.Maps.{Map, AllValues, AllValues-put}
use fusion_router.Kernel.Capabilities.{
  CapabilityId, CapabilityContract, Permission, network, filesystem, http, secrets, environment,
  keys, CapabilityGraph, add_node, is_broad, broad_grant, check_grants,
}
use fusion_router.Kernel.Registry.{
  validate_permission, RegistryError, is_frozen, duplicate_id, Registry, new, check_permissions,
  insert_checked, register, freeze,
}

pub data Call : Type 0 where
  registers : CapabilityContract → Call
  freezes : Call

abbrev pub answer : Call → Registry → Registry
answer (registers c) r = (register c r).1
answer freezes r = freeze r

-- The registry after the calls, the last one first.
abbrev pub after : List Call → Registry
after [] = new
after (call ∷ calls) = answer call (after calls)

-- Adds each contract of a registry to a graph.
abbrev pub add_contracts : Map CapabilityId CapabilityContract → CapabilityGraph → CapabilityGraph
add_contracts [] g = g
add_contracts ((id, c) ∷ contracts) g = add_contracts contracts (add_node c g)

abbrev NotBroad : CapabilityContract → Type 0
NotBroad c = broad_grant c.permissions ≡ none

is_broad-invalid : (p : Permission) → validate_permission p ≡ none → is_broad p ≡ false
unfolding validate_permission
is_broad-invalid network h = refl
is_broad-invalid (filesystem s) h = refl
is_broad-invalid (http s) h = ground arith
is_broad-invalid (secrets s) h = ground arith
is_broad-invalid (environment s) h = ground arith

check_permissions-NotBroad :
    (perms : List Permission) → check_permissions perms ≡ none → broad_grant perms ≡ none
unfolding check_permissions broad_grant
check_permissions-NotBroad [] h = refl
check_permissions-NotBroad (p ∷ perms) h =
    ground (arith, check_permissions-NotBroad perms, is_broad-invalid p)

insert_checked-NotBroad :
    (o : Option RegistryError) (c : CapabilityContract) (r : Registry)
    → check_permissions c.permissions ≡ o
    → AllValues NotBroad r.contracts
    → AllValues NotBroad (insert_checked o c r).1.contracts
insert_checked-NotBroad none c r e h =
    AllValues-put NotBroad c.id c r.contracts (check_permissions-NotBroad c.permissions e) h
insert_checked-NotBroad (some error) c r e h = h

register-NotBroad :
    (frozen known : Bool) (o : Option RegistryError) (c : CapabilityContract) (r : Registry)
    → check_permissions c.permissions ≡ o
    → AllValues NotBroad r.contracts
    → AllValues NotBroad
        (if frozen
          then (some is_frozen, r)
          else if known
          then (some (duplicate_id c.id), r)
          else insert_checked o c r).1.contracts
register-NotBroad true known o c r e h = h
register-NotBroad false true o c r e h = h
register-NotBroad false false o c r e h = insert_checked-NotBroad o c r e h

after-NotBroad : (calls : List Call) → AllValues NotBroad (after calls).contracts
unfolding register
after-NotBroad [] = tt
after-NotBroad (freezes ∷ calls) = after-NotBroad calls
after-NotBroad (registers c ∷ calls) =
    let r = after calls in
    register-NotBroad r.frozen (contains (keys r.contracts) c.id) _ c r refl (after-NotBroad calls)

check_grants-AllValues :
    (nodes : Map CapabilityId CapabilityContract)
    → (check_grants nodes ≡ none) ↔ AllValues NotBroad nodes
unfolding check_grants
check_grants-AllValues [] = (λ h. tt, λ h. refl)
check_grants-AllValues ((id, c) ∷ nodes) =
    let rest = check_grants-AllValues nodes in
    (λ h. (ground arith, rest.0 (ground arith)), λ h. ground (arith, h.0, rest.1 h.1))

add_contracts-NotBroad :
    (contracts : Map CapabilityId CapabilityContract) (g : CapabilityGraph)
    → AllValues NotBroad contracts
    → AllValues NotBroad g.nodes
    → AllValues NotBroad (add_contracts contracts g).nodes
unfolding add_node
add_contracts-NotBroad [] g h k = k
add_contracts-NotBroad ((id, c) ∷ contracts) g h k =
    add_contracts-NotBroad contracts (add_node c g) h.1
      (AllValues-put NotBroad c.id c g.nodes h.0 k)

-- Whatever was asked of a registry, its contracts never make a graph fail for an overly broad grant:
-- a graph without one that takes them in still has none.
pub registered_passes :
    (calls : List Call) (g : CapabilityGraph)
    → check_grants g.nodes ≡ none
    → check_grants (add_contracts (after calls).contracts g).nodes ≡ none
registered_passes calls g h = (check_grants-AllValues _).1 (
    add_contracts-NotBroad (after calls).contracts g (after-NotBroad calls)
      ((check_grants-AllValues g.nodes).0 h))
