-- ===== src/Scheduler/Run.antt =====
-- One run of the scheduler: the data of `run_inner` of crates/fusion-scheduler/src/lib.rs. The local
-- variables of the function are the fields of `Run`; the envelope that the caller shares is one of
-- them. Latencies and log lines are left out. JSON values, the executor, the cancellation token and
-- the pricing resolver are parameters.
pub mod Answers
pub mod Cascade
pub mod Downstream
pub mod Handle
pub mod Loop
pub mod Idle
pub mod Moves
pub mod Nodes
pub mod Passages
pub mod Progress
pub mod Safety
pub mod Settle
pub mod Spending
pub mod Termination
pub mod Turns
use fusion_router.Prelude.{
  ℕ, Bool, List, [], ◌∷◌, Option, none, some, nat_beq, nat_eq, if◌then◌else◌, Text, map, keep,
}
use fusion_router.Prelude.Words.{saturating_mul}
use fusion_router.Prelude.Maps.{Map}
use fusion_router.Money.{NanoUsd, from_nanos, saturating_add_usd}
use fusion_router.Budget.Envelope.{Envelope}
use fusion_router.Scheduler.Graph.{NodeId, ExecutionNode, ExecutionEdge, ExecutionGraph, NodeState}
use fusion_router.Scheduler.Queue.{WorkQueue, activate_edge}
use fusion_router.Scheduler.Queue.Select.{outgoing_edges}

pub record TokenPricing : Type 0 where
  pub input_nanos_per_token : ℕ
  pub output_nanos_per_token : ℕ

unfoldable pub flat_fallback : TokenPricing
flat_fallback = record { input_nanos_per_token = 2_000; output_nanos_per_token = 10_000 }

pub record DefaultScheduler : Type 0 where
  pub max_concurrent : ℕ
  pub pricing : Option (Text → TokenPricing)

unfoldable pub with_max_concurrent : ℕ → DefaultScheduler
with_max_concurrent n = record { max_concurrent = n; pricing = none }

unfoldable pub price_for : DefaultScheduler → Text → TokenPricing
price_for s model = elim s.pricing [ none ↦ flat_fallback | some resolve ↦ resolve model ]

pub record Usage : Type 0 where
  pub prompt_tokens : ℕ
  pub completion_tokens : ℕ
  pub total_tokens : ℕ

-- What one result costs at a price.
unfoldable pub node_cost : TokenPricing → Usage → NanoUsd
node_cost price usage =
    saturating_add_usd (from_nanos (saturating_mul usage.prompt_tokens price.input_nanos_per_token))
      (from_nanos (saturating_mul usage.completion_tokens price.output_nanos_per_token))

-- `node_index` maps an id to the last node that has it.
unfoldable pub node_at : List ExecutionNode → NodeId → Option ExecutionNode
node_at [] id = none
node_at (n ∷ nodes) id = elim (node_at nodes id) [
  | some m ↦ some m
  | none ↦ if nat_beq n.id id then some n else none
]

-- The targets of the outgoing edges that pass a test, and the calls that activate them in order.
unfoldable pub targets_where : (ExecutionEdge → Bool) → WorkQueue → NodeId → List NodeId
targets_where p q id = map (λ e. e.target) (keep p (outgoing_edges q id))

unfoldable pub activate_all : WorkQueue → NodeId → List NodeId → WorkQueue
activate_all q from [] = q
activate_all q from (to ∷ targets) = activate_all (activate_edge q from to) from targets

module _ (V : Type 0) where
  pub record NodeExecutionResult : Type 0 where
    pub state : NodeState
    pub usage : Option Usage
    pub output : Option V

  pub record NodeExecContext : Type 0 where
    pub parent_outputs : Map NodeId V
    pub graph_outputs : Map NodeId V

  -- What the scheduler asks of a `serde_json::Value`.
  pub record Json : Type 0 where
    pub null : V
    pub as_str : V → Option Text
    pub as_bool : V → Option Bool

  -- An executor may answer differently in every round of the scheduler's loop.
  pub record Executor : Type 0 where
    pub execute_node : ℕ → ExecutionNode → NodeExecContext → NodeExecutionResult

  pub record Run : Type 0 where
    pub queue : WorkQueue
    pub node_states : Map NodeId NodeState
    pub outputs : Map NodeId V
    pub total_cost : NanoUsd
    pub total_tokens : ℕ
    pub loop_iterations : Map NodeId ℕ
    pub envelope : Option Envelope

  pub record ExecutionOutcome : Type 0 where
    pub success : Bool
    pub outputs : Map NodeId V
    pub node_states : Map NodeId NodeState
    pub total_cost : NanoUsd
    pub total_tokens : ℕ

  -- How handling a result leaves the loop over a batch's results: it goes on, breaks out of the
  -- scheduler's loop, returns early on a breach of the budget, or returns an error with a code.
  pub data Flow : Type 0 where
    proceeds : Run → Flow
    stops : Run → Flow
    breaches : Run → Flow
    errs : Text → Flow

-- When the token is seen as cancelled: at the loop's head in a round, and before a node's answer.
pub record CancellationToken : Type 0 where
  pub is_cancelled : ℕ → Bool
  pub cancels_first : ℕ → NodeId → Bool

-- The scheduler and the arguments of a call, less the envelope.
pub record Call (V : Type 0) : Type 0 where
  pub scheduler : DefaultScheduler
  pub graph : ExecutionGraph
  pub json : Json V
  pub executor : Executor V
  pub cancel : Option CancellationToken
