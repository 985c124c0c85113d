-- ===== src/Tests/Kernel.antt =====
-- The kernel's graph and registry of capabilities: the theorems at a small graph.
use fusion_router.Prelude.{◌≡◌, ◌↔◌, refl, none, [], ◌∷◌, codes, List, text_beq}
use fusion_router.Prelude.Sets.{contains}
use fusion_router.Prelude.Maps.{get, put, push_at, increment}
use fusion_router.Prelude.Counting.{distinct}
use fusion_router.Kernel.Capabilities.{
  CapabilityContract, filesystem, http, new, add_node, add_dependency, zeros, in_degrees, neighbors,
  free, relax, take_free, checked_order, topological_sort, sorted, broad_grant, check_grants,
  validate, valid,
}
use fusion_router.Kernel.Capabilities.Ordered.{Explained, topological_sort_lem}
use fusion_router.Kernel.Capabilities.Checked.{
  Change, node, dependency, built, Admissible, validate_lem,
}
use fusion_router.Kernel.Registry.Laws.{
  Call, registers, freezes, after, add_contracts, registered_passes,
}

-- A browser on a file system on a shell.
abbrev browser : CapabilityContract
browser = record { id = 1; permissions = http (codes "example.org") ∷ [] }

abbrev files : CapabilityContract
files = record { id = 2; permissions = filesystem (codes "/tmp") ∷ [] }

abbrev shell : CapabilityContract
shell = record { id = 3; permissions = [] }

abbrev changes : List Change
changes = dependency 1 2 ∷ dependency 2 3 ∷ node browser ∷ node files ∷ node shell ∷ []

topological_sort_runs : topological_sort (built changes) ≡ sorted (3 ∷ 2 ∷ 1 ∷ [])
unfolding topological_sort checked_order take_free relax free neighbors in_degrees zeros add_node
    add_dependency new get put push_at increment contains
topological_sort_runs = refl

topological_sort_lem_example : Explained (built changes) (topological_sort (built changes))
unfolding distinct contains add_node add_dependency new put
topological_sort_lem_example = topological_sort_lem (built changes) refl

validate_lem_example : (validate (built changes) ≡ valid) ↔ Admissible (built changes)
validate_lem_example = validate_lem changes

abbrev calls : List Call
calls = registers shell ∷ freezes ∷ registers files ∷ registers browser ∷ []

registered_passes_example :
    check_grants (add_contracts (after calls).contracts (built changes)).nodes ≡ none
unfolding check_grants broad_grant add_node add_dependency new put text_beq
registered_passes_example = registered_passes calls (built changes) refl
