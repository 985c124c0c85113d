-- ===== src/Workflow/Semantics.antt =====
-- `semantic_checks` and `architectural_checks` of crates/fusion-ir/src/validate.rs, and all checks.
pub mod Keys
use fusion_router.Prelude.{
  ℕ, ◌+◌, Bool, true, false, not, ◌&&◌, ◌||◌, List, [], ◌∷◌, ◌++◌, Option, none, some, nat_beq,
  nat_eq, ltb, if◌then◌else◌, length, map, keep, any, find, Text, text_eq, ◌==◌, codes,
}
use fusion_router.Prelude.Sets.{contains, insert}
use fusion_router.Prelude.Maps.{Map, get, get_or, increment}
use fusion_router.Json.{
  Json, null, boolean, number, text, array, object, Elements, nil, element, Members, end, member,
  get as get_member, contains_key,
}
use fusion_router.Workflow.{
  NodeId, WorkflowNodeKind, task, tool, retrieval, output, WorkflowEdgeKind, conditional, retry,
  merge, loop, WorkflowNode, WorkflowEdge, WorkflowIr, workflow_ir_version, ValidationError,
  ValidationIssue, illegal_cycle, missing_condition, not_retryable, merge_arity, output_outgoing,
  split_arity, loop_config, barrier_arity, provider_field, version_mismatch, is_loop,
}
use fusion_router.Workflow.Structure.{structural_checks}
use fusion_router.Workflow.Cycles.{non_loop_cycle_back_edges}

abbrev pub node_issue : NodeId → ValidationError → ValidationIssue
node_issue id error = record { node = some id; edge = none; error = error }

abbrev pub edge_issue : WorkflowEdge → ValidationError → ValidationIssue
edge_issue e error = record { node = none; edge = some (e.from, e.to); error = error }

unfoldable pub node_at : WorkflowIr → NodeId → Option WorkflowNode
node_at ir id = find (λ (n : WorkflowNode). nat_beq n.id id) ir.nodes

abbrev pub is_retryable : Option WorkflowNode → Bool
is_retryable none = false
is_retryable (some n) = elim n.kind [ task ↦ true | tool ↦ true | retrieval ↦ true | _ ↦ false ]

abbrev pub text_at : Option Json → Option Text
text_at (some (text t)) = some t
text_at _ = none

abbrev pub marker_of : Option WorkflowNode → Option Text
marker_of none = none
marker_of (some n) = text_at (get_member (codes "control_flow") n.config)

unfoldable pub control_flow_marker : WorkflowIr → NodeId → Option Text
control_flow_marker ir id = marker_of (node_at ir id)

-- The sources of the merge edges into a node, each once.
unfoldable pub merge_sources : List WorkflowEdge → NodeId → List NodeId
merge_sources [] id = []
merge_sources (e ∷ edges) id =
    let rest = merge_sources edges id in
    elim e.kind [ merge ↦ if nat_beq e.to id then insert e.from rest else rest | _ ↦ rest ]

abbrev pub is_blank : Option Text → Bool
is_blank none = true
is_blank (some []) = true
is_blank (some (_ ∷ _)) = false

unfoldable pub check_edge : WorkflowIr → WorkflowEdge → List ValidationIssue
check_edge ir e = elim e.kind [
  | conditional ↦
      if is_blank e.condition then edge_issue e (missing_condition e.from e.to) ∷ [] else []
  | retry ↦
      if is_retryable (node_at ir e.from) then [] else edge_issue e (not_retryable e.from) ∷ []
  | merge ↦
      if ltb (length (merge_sources ir.edges e.to)) 2
      then edge_issue e (merge_arity e.to) ∷ []
      else []
  | _ ↦ []
]

abbrev pub join_all : List (List ValidationIssue) → List ValidationIssue
join_all [] = []
join_all (xs ∷ xss) = xs ++ join_all xss

abbrev pub edges_of : (WorkflowEdge → Bool) → WorkflowIr → ℕ
edges_of p ir = length (keep p ir.edges)

-- The entries of `outgoing` and `incoming`.
abbrev pub outgoing : WorkflowIr → NodeId → ℕ
outgoing ir id = edges_of (λ e. nat_beq e.from id) ir

abbrev pub incoming : WorkflowIr → NodeId → ℕ
incoming ir id = edges_of (λ e. nat_beq e.to id) ir

abbrev pub is_output : WorkflowNodeKind → Bool
is_output output = true
is_output _ = false

unfoldable pub check_output : WorkflowIr → WorkflowNode → List ValidationIssue
check_output ir n =
    if is_output n.kind && ltb 0 (outgoing ir n.id)
    then node_issue n.id (output_outgoing n.id) ∷ []
    else []

abbrev pub has_max_iterations : Option WorkflowNode → Bool
has_max_iterations none = false
has_max_iterations (some n) = contains_key (codes "max_iterations") n.config

abbrev pub is_marked : Text → Option Text → Bool
is_marked t none = false
is_marked t (some marker) = marker == t

unfoldable pub check_loop : WorkflowIr → WorkflowEdge → List ValidationIssue
check_loop ir e =
    if is_loop e.kind
      && (is_marked (codes "loop") (control_flow_marker ir e.from)
          && not (has_max_iterations (node_at ir e.from)))
    then record { node = some e.from; edge = some (e.from, e.to); error = loop_config e.from } ∷ []
    else []

unfoldable pub check_arity : WorkflowIr → WorkflowNode → List ValidationIssue
check_arity ir n =
    let marker = control_flow_marker ir n.id in
    if is_marked (codes "split") marker
    then (if ltb (outgoing ir n.id) 2 then node_issue n.id (split_arity n.id) ∷ [] else [])
    else if is_marked (codes "barrier") marker
        && (ltb (incoming ir n.id) 1 || ltb (outgoing ir n.id) 1)
    then node_issue n.id (barrier_arity n.id) ∷ []
    else []

abbrev pub cycle_issue : NodeId × NodeId → ValidationIssue
cycle_issue e = record { node = none; edge = some e; error = illegal_cycle e.0 e.1 }

unfoldable pub semantic_issues :
    WorkflowIr → Option (List (NodeId × NodeId)) → Option (List ValidationIssue)
semantic_issues ir none = none
semantic_issues ir (some back_edges) = some (
    join_all (map (check_edge ir) ir.edges)
    ++ (join_all (map (check_output ir) ir.nodes)
        ++ (map cycle_issue back_edges
            ++ (join_all (map (check_loop ir) ir.edges)
                ++ join_all (map (check_arity ir) ir.nodes)))))

unfoldable pub semantic_checks : WorkflowIr → Option (List ValidationIssue)
semantic_checks ir = semantic_issues ir (non_loop_cycle_back_edges ir)

abbrev pub reserved_provider_keys : List Text
reserved_provider_keys = codes "model" ∷ codes "provider" ∷ codes "endpoint" ∷ []

-- The issues of one node's configuration, at every depth.
unfoldable mutual
  pub scan_for_provider_keys : Json → NodeId → List ValidationIssue
  scan_for_provider_keys (object ms) path = scan_members ms path
  scan_for_provider_keys (array items) path = scan_elements items path
  scan_for_provider_keys _ path = []

  pub scan_members : Members → NodeId → List ValidationIssue
  scan_members end path = []
  scan_members (member k v ms) path =
      (if contains reserved_provider_keys k then node_issue path (provider_field k) ∷ [] else [])
      ++ (scan_for_provider_keys v path ++ scan_members ms path)

  pub scan_elements : Elements → NodeId → List ValidationIssue
  scan_elements nil path = []
  scan_elements (element v items) path = scan_for_provider_keys v path ++ scan_elements items path

unfoldable pub architectural_checks : WorkflowIr → List ValidationIssue
architectural_checks ir =
    (if nat_beq ir.version workflow_ir_version
      then []
      else record {
        node = none;
        edge = none;
        error = version_mismatch ir.version workflow_ir_version;
      }
        ∷ [])
    ++ join_all (map (λ (n : WorkflowNode). scan_for_provider_keys (object n.config) n.id) ir.nodes)

abbrev pub all_issues :
    Option (List ValidationIssue)
    → Option (List ValidationIssue)
    → List ValidationIssue
    → Option (List ValidationIssue)
all_issues (some a) (some b) c = some (a ++ (b ++ c))
all_issues _ _ c = none

unfoldable pub run_all : WorkflowIr → Option (List ValidationIssue)
run_all ir = all_issues (structural_checks ir) (semantic_checks ir) (architectural_checks ir)
