-- ===== src/Agent/Merge.antt =====
-- The merge of a patch into a state: `merge_state` of crates/fusion-agent-state/src/lib.rs. Since an
-- object's members stand in order already, the sorts of its keys do nothing and are left out.
pub mod Laws
pub mod Clashes
use fusion_router.Prelude.{Bool, Option, none, some, Text, List}
use fusion_router.Json.{
  Json, null, boolean, number, text, array, object, Elements, Members, end, member, get, set,
  delete,
}

-- `type_of`
pub data TypeName : Type 0 where
  null_type bool_type number_type string_type array_type object_type : TypeName

abbrev pub type_of : Json → TypeName
type_of null = null_type
type_of (boolean _) = bool_type
type_of (number _) = number_type
type_of (text _) = string_type
type_of (array _) = array_type
type_of (object _) = object_type

-- What a message says, with the values in it. A path lists the keys from the root, the last first.
pub data StateError : Type 0 where
  not_an_object : StateError
  null_patch : StateError
  ambiguous_merge : Text → TypeName → StateError
  wrong_type : List Text → TypeName → TypeName → StateError
  not_an_integer : List Text → TypeName → StateError
  float_for_integer : List Text → StateError
  missing_required additional_property : List Text → Text → StateError
  instructions_too_large instructions_empty : StateError

pub data Result {ℓ} (A : Type ℓ) : Type ℓ where
  ok : A → Result A
  err : StateError → Result A

-- The loop over the patch's keys: `base` is the object as it was, `merged` what it has become.
unfoldable pub merge_members : Members → Members → Members → Result Members
merge_members end base merged = ok merged
merge_members (member k null patch) base merged = merge_members patch base (delete k merged)
merge_members (member k (object inner) patch) base merged = elim (get k base) [
  | none ↦ merge_members patch base (set k (object inner) merged)
  | some (object base_inner) ↦ elim (merge_members inner base_inner base_inner) [
    | ok rec ↦ merge_members patch base (set k (object rec) merged)
    | err e ↦ err e
  ]
  | some leaf ↦ err (ambiguous_merge k (type_of leaf))
]
merge_members (member k v patch) base merged = merge_members patch base (set k v merged)

abbrev pub as_object : Result Members → Result Json
as_object (ok m) = ok (object m)
as_object (err e) = err e

unfoldable pub merge_state : Json → Json → Result Json
merge_state base null = err null_patch
merge_state (object base) (object patch) = as_object (merge_members patch base base)
merge_state base patch = ok patch
