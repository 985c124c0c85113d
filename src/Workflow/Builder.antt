-- ===== src/Workflow/Builder.antt =====
-- `WorkflowBuilder` of crates/fusion-ir/src/builder.rs, the order of a report in
-- crates/fusion-ir/src/validate.rs, and the gate `from_json` of crates/fusion-ir/src/serialize.rs.
pub mod Built
pub mod Kept
use fusion_router.Prelude.{
  Bool, true, false, List, [], ◌∷◌, ◌++◌, Option, none, some, nat_beq, nat_eq, if◌then◌else◌, Text,
  codes, any,
}
use fusion_router.Prelude.Sets.{contains, insert}
use fusion_router.Json.{Members, end}
use fusion_router.Workflow.{
  NodeId, WorkflowNodeKind, task, tool, retrieval, memory, review, judge, security, aggregation,
  output, WorkflowEdgeKind, sequential, parallel, conditional, retry, merge, loop, WorkflowNode,
  WorkflowEdge, WorkflowIr, workflow_ir_version, ValidationError, ValidationIssue,
  duplicate_node_id, unknown_node_ref, provider_field,
}
use fusion_router.Workflow.Semantics.{run_all}

pub data Result {ℓ} (A : Type ℓ) : Type ℓ where
  ok : A → Result A
  err : ValidationError → Result A

pub record WorkflowBuilder : Type 0 where
  pub nodes : List WorkflowNode
  pub edges : List WorkflowEdge
  pub seen : List NodeId

abbrev pub new : WorkflowBuilder
new = record { nodes = []; edges = []; seen = [] }

-- The node is told with its kind, its capability, its model and its configuration.
unfoldable pub add_node_with_model : WorkflowNode → WorkflowBuilder → Result WorkflowBuilder
add_node_with_model n b =
    if contains b.seen n.id
    then err (duplicate_node_id n.id)
    else ok (record b { nodes = b.nodes ++ n ∷ []; seen = insert n.id b.seen })

abbrev pub add_node_with_config :
    NodeId → WorkflowNodeKind → Option Text → Members → WorkflowBuilder → Result WorkflowBuilder
add_node_with_config id kind capability config = add_node_with_model (record {
  id = id;
  kind = kind;
  capability = capability;
  selected_model = none;
  config = config;
})

abbrev pub add_node :
    NodeId → WorkflowNodeKind → Option Text → WorkflowBuilder → Result WorkflowBuilder
add_node id kind capability = add_node_with_config id kind capability end

-- The first node of the id takes the configuration; `none` where there is none.
unfoldable pub set_config : NodeId → Members → List WorkflowNode → Option (List WorkflowNode)
set_config id config [] = none
set_config id config (n ∷ nodes) =
    let rest = set_config id config nodes in
    if nat_beq n.id id
    then some (record n { config = config } ∷ nodes)
    else elim rest [ none ↦ none | some changed ↦ some (n ∷ changed) ]

abbrev pub with_nodes :
    NodeId → Option (List WorkflowNode) → WorkflowBuilder → Result WorkflowBuilder
with_nodes id none b = err (unknown_node_ref id)
with_nodes id (some nodes) b = ok (record b { nodes = nodes })

unfoldable pub with_config : NodeId → Members → WorkflowBuilder → Result WorkflowBuilder
with_config id config b = with_nodes id (set_config id config b.nodes) b

unfoldable pub edge :
    NodeId → NodeId → WorkflowEdgeKind → Option Text → WorkflowBuilder → Result WorkflowBuilder
edge from to kind condition b =
    if contains b.seen from
    then (if contains b.seen to
        then ok (record b {
          edges =
              b.edges ++ record { from = from; to = to; kind = kind; condition = condition } ∷ [];
        })
        else err (unknown_node_ref to))
    else err (unknown_node_ref from)

-- The shorthands of the builder, one per kind.
abbrev pub add_task : NodeId → Text → WorkflowBuilder → Result WorkflowBuilder
add_task id capability = add_node id task (some capability)

abbrev pub add_tool : NodeId → Text → WorkflowBuilder → Result WorkflowBuilder
add_tool id capability = add_node id tool (some capability)

abbrev pub add_retrieval : NodeId → Text → WorkflowBuilder → Result WorkflowBuilder
add_retrieval id capability = add_node id retrieval (some capability)

abbrev pub add_memory : NodeId → Text → WorkflowBuilder → Result WorkflowBuilder
add_memory id capability = add_node id memory (some capability)

abbrev pub add_review : NodeId → Text → WorkflowBuilder → Result WorkflowBuilder
add_review id capability = add_node id review (some capability)

abbrev pub add_judge : NodeId → Text → WorkflowBuilder → Result WorkflowBuilder
add_judge id capability = add_node id judge (some capability)

abbrev pub add_security : NodeId → Text → WorkflowBuilder → Result WorkflowBuilder
add_security id capability = add_node id security (some capability)

abbrev pub add_aggregation : NodeId → Text → WorkflowBuilder → Result WorkflowBuilder
add_aggregation id capability = add_node id aggregation (some capability)

abbrev pub add_output : NodeId → WorkflowBuilder → Result WorkflowBuilder
add_output id = add_node id output none

abbrev pub add_sequential : NodeId → NodeId → WorkflowBuilder → Result WorkflowBuilder
add_sequential from to = edge from to sequential none

abbrev pub add_parallel : NodeId → NodeId → WorkflowBuilder → Result WorkflowBuilder
add_parallel from to = edge from to parallel none

abbrev pub add_retry : NodeId → NodeId → WorkflowBuilder → Result WorkflowBuilder
add_retry from to = edge from to retry none

abbrev pub add_merge : NodeId → NodeId → WorkflowBuilder → Result WorkflowBuilder
add_merge from to = edge from to merge none

abbrev pub add_loop : NodeId → NodeId → WorkflowBuilder → Result WorkflowBuilder
add_loop from to = edge from to loop none

abbrev pub add_conditional : NodeId → NodeId → Text → WorkflowBuilder → Result WorkflowBuilder
add_conditional from to condition = edge from to conditional (some condition)

-- A stable sort, of which the comparison of the issues' texts is an argument.
module _ (is_at_most : ValidationIssue → ValidationIssue → Bool) where
  unfoldable pub insert_issue : ValidationIssue → List ValidationIssue → List ValidationIssue
  insert_issue i [] = i ∷ []
  insert_issue i (j ∷ issues) =
      let rest = insert_issue i issues in if is_at_most i j then i ∷ j ∷ issues else j ∷ rest

  unfoldable pub sort_deterministic : List ValidationIssue → List ValidationIssue
  sort_deterministic [] = []
  sort_deterministic (i ∷ issues) = insert_issue i (sort_deterministic issues)

  abbrev pub first_error : List ValidationIssue → Option ValidationError
  first_error [] = none
  first_error (i ∷ _) = some i.error

  -- `WorkflowIR::validate`
  abbrev pub sorted_report : Option (List ValidationIssue) → Option (List ValidationIssue)
  sorted_report none = none
  sorted_report (some issues) = some (sort_deterministic issues)

  unfoldable pub validate : WorkflowIr → Option (List ValidationIssue)
  validate ir = sorted_report (run_all ir)

  abbrev pub accept : WorkflowIr → Option (List ValidationIssue) → Option (Result WorkflowIr)
  accept ir none = none
  accept ir (some []) = some (ok ir)
  accept ir (some (i ∷ _)) = some (err i.error)

  unfoldable pub build : WorkflowBuilder → Option (Result WorkflowIr)
  build b =
      let ir : WorkflowIr = record {
        version = workflow_ir_version;
        nodes = b.nodes;
        edges = b.edges;
      } in
      accept ir (validate ir)

  abbrev pub has_model : WorkflowNode → Bool
  has_model n = elim n.selected_model [ none ↦ false | some _ ↦ true ]

  -- `from_json` after the text was parsed: models that were chosen outside are refused.
  unfoldable pub from_json : WorkflowIr → Option (Result WorkflowIr)
  from_json ir =
      if any has_model ir.nodes
      then some (err (provider_field (codes "selected_model")))
      else accept ir (validate ir)
