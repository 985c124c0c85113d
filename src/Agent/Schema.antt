-- ===== src/Agent/Schema.antt =====
-- The check of a state against a schema: `validate_against_schema` of
-- crates/fusion-agent-state/src/lib.rs. The error, if there is one, is the result.
pub mod Laws
use fusion_router.Prelude.{
  Bool, true, false, List, [], ◌∷◌, Option, none, some, Text, text_eq, ◌==◌, codes, if◌then◌else◌,
}
use fusion_router.Json.{
  Number, pos_int, neg_int, float, Json, null, boolean, number, text, array, object, Elements, nil,
  element, Members, end, member, get, contains_key,
}
use fusion_router.Agent.Merge.{
  TypeName, string_type, number_type, bool_type, array_type, object_type, type_of, StateError,
  wrong_type, not_an_integer, float_for_integer, missing_required, additional_property,
}

-- What a schema's `type` asks for, if it is a known one.
pub data SchemaType : Type 0 where
  objects strings numbers integers booleans arrays anything : SchemaType

unfoldable pub named_type : Text → SchemaType
named_type t =
    if t == codes "object"
    then objects
    else if t == codes "string"
    then strings
    else if t == codes "number"
    then numbers
    else if t == codes "integer"
    then integers
    else if t == codes "boolean"
    then booleans
    else if t == codes "array"
    then arrays
    else anything

abbrev pub type_in : Option Json → SchemaType
type_in (some (text t)) = named_type t
type_in _ = anything

unfoldable pub schema_type : Members → SchemaType
schema_type s = type_in (get (codes "type") s)

abbrev pub texts_in : Elements → List Text
texts_in nil = []
texts_in (element (text t) xs) = t ∷ texts_in xs
texts_in (element _ xs) = texts_in xs

abbrev pub names_in : Option Json → List Text
names_in (some (array xs)) = texts_in xs
names_in _ = []

unfoldable pub required : Members → List Text
required s = names_in (get (codes "required") s)

abbrev pub bool_or : Bool → Option Json → Bool
bool_or _ (some (boolean b)) = b
bool_or default _ = default

unfoldable pub allows_additional : Members → Bool
allows_additional s = bool_or true (get (codes "additionalProperties") s)

abbrev pub object_in : Option Json → Option Members
object_in (some (object m)) = some m
object_in _ = none

unfoldable pub properties : Members → Option Members
properties s = object_in (get (codes "properties") s)

unfoldable pub check_required : List Text → Members → List Text → Option StateError
check_required [] obj path = none
check_required (name ∷ names) obj path =
    if contains_key name obj
    then check_required names obj path
    else some (missing_required path name)

abbrev pub check_integer : Json → List Text → Option StateError
check_integer (number (float _)) path = some (float_for_integer path)
check_integer (number _) path = none
check_integer value path = some (not_an_integer path (type_of value))

-- Every type but `object`.
unfoldable pub check_leaf : SchemaType → Json → List Text → Option StateError
check_leaf strings (text _) path = none
check_leaf strings value path = some (wrong_type path string_type (type_of value))
check_leaf numbers (number _) path = none
check_leaf numbers value path = some (wrong_type path number_type (type_of value))
check_leaf integers value path = check_integer value path
check_leaf booleans (boolean _) path = none
check_leaf booleans value path = some (wrong_type path bool_type (type_of value))
check_leaf arrays (array _) path = none
check_leaf arrays value path = some (wrong_type path array_type (type_of value))
check_leaf objects value path = some (wrong_type path object_type (type_of value))
check_leaf anything value path = none

abbrev pub and_then : Option StateError → Option StateError → Option StateError
and_then (some e) rest = some e
and_then none rest = rest

unfoldable mutual
  pub validate_value : Json → Json → List Text → Option StateError
  validate_value (object obj) (object s) path = elim (schema_type s) [
    | objects ↦ and_then (check_required (required s) obj path) (elim (properties s) [
      | none ↦ none
      | some props ↦ validate_members obj props (allows_additional s) path
    ])
    | type ↦ check_leaf type (object obj) path
  ]
  validate_value value (object s) path = check_leaf (schema_type s) value path
  validate_value value _ path = none

  pub validate_members : Members → Members → Bool → List Text → Option StateError
  validate_members end props additional path = none
  validate_members (member k v obj) props additional path = elim (get k props) [
    | some schema ↦
        and_then (validate_value v schema (k ∷ path)) (validate_members obj props additional path)
    | none ↦
        if additional
        then validate_members obj props additional path
        else some (additional_property path k)
  ]

unfoldable pub validate_against_schema : Json → Json → Option StateError
validate_against_schema value null = none
validate_against_schema value (object end) = none
validate_against_schema value schema = validate_value value schema []
