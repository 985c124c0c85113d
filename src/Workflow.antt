-- ===== src/Workflow.antt =====
-- The workflows that callers hand in: crates/fusion-ir/src, its nodes, edges and errors. The ids of
-- nodes, of which the checks use equality, are numbers. Metadata and the workflow's id are left out.
pub mod Structure
pub mod Cycles
pub mod Semantics
pub mod Builder
use fusion_router.Prelude.{ℕ, Bool, true, false, List, Option, Text}
use fusion_router.Json.{Members}

abbrev pub NodeId : Type 0
NodeId = ℕ

pub data WorkflowNodeKind : Type 0 where
  task tool retrieval memory review judge security aggregation output : WorkflowNodeKind

pub data WorkflowEdgeKind : Type 0 where
  sequential parallel conditional retry merge loop : WorkflowEdgeKind

pub record WorkflowNode : Type 0 where
  pub id : NodeId
  pub kind : WorkflowNodeKind
  pub capability : Option Text
  pub selected_model : Option Text
  pub config : Members

pub record WorkflowEdge : Type 0 where
  pub from : NodeId
  pub to : NodeId
  pub kind : WorkflowEdgeKind
  pub condition : Option Text

pub record WorkflowIr : Type 0 where
  pub version : ℕ
  pub nodes : List WorkflowNode
  pub edges : List WorkflowEdge

abbrev pub workflow_ir_version : ℕ
workflow_ir_version = 1

pub data ValidationError : Type 0 where
  duplicate_node_id unknown_node_ref unreachable_node : NodeId → ValidationError
  missing_root : ValidationError
  illegal_cycle missing_condition : NodeId → NodeId → ValidationError
  not_retryable merge_arity output_outgoing split_arity : NodeId → ValidationError
  loop_config barrier_arity : NodeId → ValidationError
  provider_field : Text → ValidationError
  version_mismatch : ℕ → ℕ → ValidationError

pub record ValidationIssue : Type 0 where
  pub node : Option NodeId
  pub edge : Option (NodeId × NodeId)
  pub error : ValidationError

abbrev pub is_loop : WorkflowEdgeKind → Bool
is_loop loop = true
is_loop _ = false
