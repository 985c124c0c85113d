-- ===== src/Compiler/Ir.antt =====
-- The intermediate representation that the passes rewrite (crates/fusion-types/src/lib.rs) and the
-- errors they return (crates/fusion-compiler/src/lib.rs). A Uuid is a number; the values of a node's
-- configuration are JSON values, whose type is a parameter. An error's text is named by a constructor
-- and the arguments of its format string.
use fusion_router.Prelude.{ℕ, List, Option, Text}
use fusion_router.Prelude.Maps.{Map}
use fusion_router.Money.{NanoUsd}

abbrev pub NodeId : Type 0
NodeId = ℕ

pub data IrNodeKind : Type 0 where
  generate review judge transform gate : IrNodeKind
  conditional loop split join barrier : IrNodeKind

pub data StrategyKind : Type 0 where
  single consensus reflection chain debate re_act fusion : StrategyKind
  custom : Text → StrategyKind

pub record IrNode (V : Type 0) : Type 0 where
  pub id : NodeId
  pub kind : IrNodeKind
  pub strategy : StrategyKind
  pub model : Option Text
  pub config : Map Text V

pub record IrEdge : Type 0 where
  pub from : NodeId
  pub to : NodeId
  pub condition : Option Text

pub record IrMetadata : Type 0 where
  pub policy_applied : List Text
  pub policy_version : ℕ
  pub estimated_cost : NanoUsd
  pub estimated_tokens : ℕ

pub record WorkflowIr (V : Type 0) : Type 0 where
  pub plan_id : ℕ
  pub nodes : List (IrNode V)
  pub edges : List IrEdge
  pub metadata : IrMetadata

pub data Message : Type 0 where
  at_least_one_node : Message
  too_many_nodes : ℕ → Message
  unknown_source : NodeId → Message
  unknown_target : NodeId → Message
  conditional_without_edge conditional_without_condition : Message
  loop_without_edge loop_without_max_iterations : Message
  split_needs_two : ℕ → Message
  join_needs_two : ℕ → Message
  barrier_without_incoming barrier_without_outgoing : Message
  illegal_cycle : Message
  budget_exceeded : Message
  rule_denies : Text → Text → NodeId → Message

-- `CompilerError::ValidationError`, the one error that the passes return.
pub record CompilerError : Type 0 where
  pub pass : Text
  pub node_id : Option NodeId
  pub message : Message

pub data PassResult {ℓ} (A : Type ℓ) : Type ℓ where
  ok : A → PassResult A
  err : CompilerError → PassResult A
