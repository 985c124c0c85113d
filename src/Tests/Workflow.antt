-- ===== src/Tests/Workflow.antt =====
-- Workflows: the theorems at a small one, with a loop edge.
use fusion_router.Prelude.{
  ◌≡◌, ◌≢◌, ◌↔◌, refl, Bool, true, false, List, [], ◌∷◌, none, some, codes, text_beq,
}
use fusion_router.Prelude.Sets.{contains, insert}
use fusion_router.Prelude.Maps.{get, put, push_at, increment}
use fusion_router.Json.{
  Json, null, boolean, number, text, array, object, Elements, nil, element, Members, end, member,
  pos_int,
}
use fusion_router.Json as Json
use fusion_router.Compiler.ControlFlow.Cycles.Decided.{joined}
use fusion_router.Compiler.ControlFlow.Cycles.Trails.{Trail}
use fusion_router.Workflow.{
  NodeId, task, sequential, loop, WorkflowNode, WorkflowEdge, WorkflowIr, ValidationIssue,
}
use fusion_router.Workflow.Structure.{
  check_ids, check_ends, count_incoming, adjacency, roots, reach, reached, issues_of,
  structural_checks,
}
use fusion_router.Workflow.Structure.Accepted.{Settles, structural_checks_lem}
use fusion_router.Workflow.Cycles.{forward, collect, collect_all, non_loop_cycle_back_edges}
use fusion_router.Workflow.Cycles.Decided.{ends, non_loop_cycle_back_edges_lem}
use fusion_router.Workflow.Semantics.{
  node_at, control_flow_marker, check_edge, check_output, check_loop, check_arity, semantic_issues,
  semantic_checks, scan_for_provider_keys, scan_members, scan_elements, architectural_checks,
  run_all,
}
use fusion_router.Workflow.Builder.{
  WorkflowBuilder, add_node_with_model, edge, sort_deterministic, validate, from_json,
}
use fusion_router.Workflow.Builder.Built.{IsAccepted, from_json_lem}
use fusion_router.Workflow.Builder.Kept.{Call, node, joins, IsKept, built-IsKept}

abbrev config : Members
config = member (codes "temperature") (number (pos_int 0)) end

abbrev first : WorkflowNode
first = record { id = 1; kind = task; capability = none; selected_model = none; config = config }

abbrev last : WorkflowNode
last = record { id = 2; kind = task; capability = none; selected_model = none; config = end }

abbrev ahead : WorkflowEdge
ahead = record { from = 1; to = 2; kind = sequential; condition = none }

abbrev back : WorkflowEdge
back = record { from = 2; to = 1; kind = loop; condition = none }

abbrev ir : WorkflowIr
ir = record { version = 1; nodes = first ∷ last ∷ []; edges = ahead ∷ back ∷ [] }

structural_checks_lem_example : Settles ir (structural_checks ir)
structural_checks_lem_example = structural_checks_lem ir

structural_checks_run : structural_checks ir ≡ some []
unfolding structural_checks issues_of reached reach roots adjacency count_incoming check_ends
    check_ids contains insert get put push_at increment
structural_checks_run = refl

non_loop_cycle_back_edges_lem_example :
    (non_loop_cycle_back_edges ir ≢ none)
    × ((non_loop_cycle_back_edges ir ≡ some [])
        ↔ ((v : NodeId) → Trail (joined (ends (forward ir.edges))) v v → ⊥))
unfolding contains
non_loop_cycle_back_edges_lem_example = non_loop_cycle_back_edges_lem ir refl

abbrev keep_order : ValidationIssue → ValidationIssue → Bool
keep_order i j = true

from_json_lem_example : (ir ≡ ir) × (false ≡ false) × IsAccepted ir
unfolding from_json validate run_all architectural_checks scan_for_provider_keys scan_members
    scan_elements semantic_checks semantic_issues check_edge check_output check_loop check_arity
    control_flow_marker node_at non_loop_cycle_back_edges collect_all collect structural_checks
    issues_of reached reach roots adjacency count_incoming check_ends check_ids contains insert get
    put push_at increment sort_deterministic text_beq Json.get Json.contains_key
from_json_lem_example = from_json_lem keep_order ir ir refl

abbrev calls : List Call
calls = joins 2 1 loop none ∷ joins 1 2 sequential none ∷ node last ∷ node first ∷ []

abbrev builder : WorkflowBuilder
builder = record { nodes = first ∷ last ∷ []; edges = ahead ∷ back ∷ []; seen = 2 ∷ 1 ∷ [] }

built-IsKept_example : IsKept builder
unfolding add_node_with_model edge contains insert
built-IsKept_example = built-IsKept calls builder refl
