-- ===== src/Kernel/Registry.antt =====
-- The registry of contracts: crates/fusion-kernel/src/capability/registry.rs, with
-- `Permission::validate` of crates/fusion-plugin-api/src/lib.rs.
pub mod Laws
use fusion_router.Prelude.{
  Bool, true, false, ◌||◌, List, [], ◌∷◌, Option, none, some, nat_eq, if◌then◌else◌, text_eq, ◌==◌,
  codes,
}
use fusion_router.Prelude.Sets.{contains}
use fusion_router.Prelude.Maps.{Map, get, put}
use fusion_router.Kernel.Capabilities.{
  CapabilityId, CapabilityContract, Permission, network, filesystem, http, secrets, environment,
  keys,
}

pub data PermissionError : Type 0 where
  empty_argument : PermissionError

-- The error, if there is one.
unfoldable pub validate_permission : Permission → Option PermissionError
validate_permission network = none
validate_permission (filesystem path) = if path == [] then some empty_argument else none
validate_permission (http s) = if s == [] || s == codes "*" then some empty_argument else none
validate_permission (secrets s) = if s == [] || s == codes "*" then some empty_argument else none
validate_permission (environment s) =
    if s == [] || s == codes "*" then some empty_argument else none

pub data RegistryError : Type 0 where
  duplicate_id not_found : CapabilityId → RegistryError
  is_frozen : RegistryError
  invalid_contract : PermissionError → RegistryError

pub record Registry : Type 0 where
  pub contracts : Map CapabilityId CapabilityContract
  pub frozen : Bool

abbrev pub new : Registry
new = record { contracts = []; frozen = false }

unfoldable pub check_permissions : List Permission → Option RegistryError
check_permissions [] = none
check_permissions (p ∷ perms) = elim (validate_permission p) [
  | some e ↦ some (invalid_contract e)
  | none ↦ check_permissions perms
]

abbrev insert_checked :
    Option RegistryError → CapabilityContract → Registry → Option RegistryError × Registry
insert_checked (some e) c r = (some e, r)
insert_checked none c r = (none, record r { contracts = put c.id c r.contracts })

-- The error, if there is one, and the registry after the call.
unfoldable pub register : CapabilityContract → Registry → Option RegistryError × Registry
register c r =
    if r.frozen
    then (some is_frozen, r)
    else if contains (keys r.contracts) c.id
    then (some (duplicate_id c.id), r)
    else insert_checked (check_permissions c.permissions) c r

abbrev pub freeze : Registry → Registry
freeze r = record r { frozen = true }
