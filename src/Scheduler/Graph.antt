-- ===== src/Scheduler/Graph.antt =====
-- Execution graphs: crates/fusion-types/src/lib.rs. A Uuid is a number. Of a node's configuration
-- only the entry `max_iterations` is kept, as `as_u64` reads it; the fields of a node and of a graph
-- that scheduling does not read (strategy, retry policy, totals) are left out.
use fusion_router.Prelude.{ℕ, Bool, true, false, List, Option, Text}

abbrev pub NodeId : Type 0
NodeId = ℕ

pub data ExecutionNodeKind : Type 0 where
  llm_generate llm_review llm_judge transform gate : ExecutionNodeKind
  conditional loop split join barrier : ExecutionNodeKind

pub record ExecutionNode : Type 0 where
  pub id : NodeId
  pub kind : ExecutionNodeKind
  pub model : Text
  pub max_iterations : Option ℕ

pub record ExecutionEdge : Type 0 where
  pub source : NodeId
  pub target : NodeId
  pub condition : Option Text

pub record ExecutionGraph : Type 0 where
  pub nodes : List ExecutionNode
  pub edges : List ExecutionEdge

pub data NodeState : Type 0 where
  pending running succeeded skipped : NodeState
  failed : Text → NodeState

abbrev pub is_loop : ExecutionNodeKind → Bool
is_loop loop = true
is_loop _ = false

abbrev pub is_selective : ExecutionNodeKind → Bool
is_selective loop = true
is_selective conditional = true
is_selective _ = false

-- `Succeeded | Failed(_) | Skipped`, as read from a map of states.
abbrev pub is_terminal : Option NodeState → Bool
is_terminal (Option.some succeeded) = true
is_terminal (Option.some (failed _)) = true
is_terminal (Option.some skipped) = true
is_terminal _ = false
