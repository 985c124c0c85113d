-- ===== src/Scheduler/Run/Loop.antt =====
-- The scheduler's loop and its callers: `run_inner` of crates/fusion-scheduler/src/lib.rs. A round is
-- one turn of the loop; the loop runs on fuel, one unit for a round.
use fusion_router.Prelude.{
  ℕ, zero, suc, Bool, true, false, List, [], ◌∷◌, Option, none, some, nat_beq, nat_eq,
  if◌then◌else◌, Text, codes, map, take, all,
}
use fusion_router.Prelude.Maps.{Map, get, put}
use fusion_router.Money.{zero_usd}
use fusion_router.Budget.Envelope.{Envelope}
use fusion_router.Scheduler.Graph.{
  NodeId, ExecutionNode, ExecutionEdge, NodeState, running, succeeded, skipped, failed,
}
use fusion_router.Scheduler.Queue.{new, with_max_concurrent_nodes, mark_in_progress}
use fusion_router.Scheduler.Queue.Select.{get_ready, is_done, any_in_progress}
use fusion_router.Scheduler.Run.{
  NodeExecutionResult, NodeExecContext, Run, ExecutionOutcome, Flow, proceeds, stops, breaches,
  errs, Call, node_at,
}
use fusion_router.Scheduler.Run.Handle.{node_not_found, handle_all}

abbrev pub cancelled_code : Text
cancelled_code = codes "CANCELLED"

abbrev pub cancelled_by_client : NodeState
cancelled_by_client = failed (codes "Cancelled by client")

-- `Some(Succeeded) | Some(Skipped)`
unfoldable pub is_success : Option NodeState → Bool
is_success (some succeeded) = true
is_success (some skipped) = true
is_success _ = false

module _ (V : Type 0) where
  -- What a caller sees: an outcome and the envelope, or an error's code.
  pub data Answer : Type 0 where
    finished : ExecutionOutcome V → Option Envelope → Answer
    error : Text → Answer
    out_of_fuel : Answer

  pub data Turn : Type 0 where
    goes_on : Run V → Turn
    returns : Answer → Turn

abbrev pub Started : Type 0 → Type 0
Started V = Option (Run V × List (NodeId × NodeExecutionResult V))

module _ {V : Type 0} where
  unfoldable pub parent_outputs : Map NodeId V → List ExecutionEdge → NodeId → Map NodeId V
  parent_outputs outputs [] id = []
  parent_outputs outputs (e ∷ edges) id =
      let rest = parent_outputs outputs edges id in
      if nat_beq e.target id
      then elim (get e.source outputs) [ none ↦ rest | some v ↦ put e.source v rest ]
      else rest

  unfoldable pub context_of : Call V → NodeId → Run V → NodeExecContext V
  context_of c id r = record {
    parent_outputs = parent_outputs r.outputs c.graph.edges id;
    graph_outputs = r.outputs;
  }

  -- A node's future: the token is looked at first.
  abbrev pub cancelled_result : NodeExecutionResult V
  cancelled_result = record { state = cancelled_by_client; usage = none; output = none }

  unfoldable pub execute :
      Call V → ℕ → ExecutionNode → NodeExecContext V → NodeId × NodeExecutionResult V
  execute c round n ctx = (
    n.id,
    elim c.cancel [
      | none ↦ c.executor.execute_node round n ctx
      | some token ↦
          if token.cancels_first round n.id
          then cancelled_result
          else c.executor.execute_node round n ctx
    ],
  )

  -- Marks a batch as running and collects its results; `none` stands for NODE_NOT_FOUND.
  unfoldable pub mark_running : NodeId → Run V → Run V
  mark_running id r = record r {
    queue = mark_in_progress r.queue id;
    node_states = put id running r.node_states;
  }

  unfoldable pub answer_too : NodeId × NodeExecutionResult V → Started V → Started V
  answer_too result none = none
  answer_too result (some (r, results)) = some (r, result ∷ results)

  unfoldable pub start_batch : Call V → ℕ → List NodeId → Run V → Started V
  start_batch c round [] r = some (r, [])
  start_batch c round (id ∷ ids) r =
      let started = mark_running id r in
      let rest = start_batch c round ids started in
      elim (node_at c.graph.nodes id) [
        | none ↦ none
        | some n ↦ answer_too (execute c round n (context_of c id started)) rest
      ]

  unfoldable pub conclude : Bool → Run V → Answer V
  conclude success r =
      finished
        (record {
          success = success;
          outputs = r.outputs;
          node_states = r.node_states;
          total_cost = r.total_cost;
          total_tokens = r.total_tokens;
        })
        r.envelope

  unfoldable pub succeeded_everywhere : List ExecutionNode → Run V → Bool
  succeeded_everywhere nodes r = all (λ n. is_success (get n.id r.node_states)) nodes

  -- The end of the function, behind the loop.
  unfoldable pub finish : Call V → Run V → Answer V
  finish c r = conclude (succeeded_everywhere c.graph.nodes r) r

  unfoldable pub turn_of : Call V → Flow V → Turn V
  turn_of c (proceeds r) = goes_on r
  turn_of c (stops r) = returns (finish c r)
  turn_of c (breaches r) = returns (conclude false r)
  turn_of c (errs code) = returns (error code)

  unfoldable pub batch_ids : Call V → List ExecutionNode → List NodeId
  batch_ids c ready = map (λ n. n.id) (take c.scheduler.max_concurrent ready)

  unfoldable pub run_batch : Call V → List NodeId → Started V → Turn V
  run_batch c ids none = returns (error node_not_found)
  run_batch c ids (some (started, results)) = turn_of c (handle_all c ids results started)

  abbrev pub is_cancelled : Call V → ℕ → Bool
  is_cancelled c round = elim c.cancel [ none ↦ false | some token ↦ token.is_cancelled round ]

  -- With nothing ready, the loop polls while nodes are in progress, which changes nothing.
  unfoldable pub dispatch : Call V → ℕ → List ExecutionNode → Run V → Turn V
  dispatch c round [] r = if any_in_progress r.queue then goes_on r else returns (finish c r)
  dispatch c round (n ∷ ready) r =
      let batch = batch_ids c (n ∷ ready) in run_batch c batch (start_batch c round batch r)

  unfoldable pub turn : Call V → ℕ → Run V → Turn V
  turn c round r =
      if is_cancelled c round
      then returns (error cancelled_code)
      else if is_done r.queue r.node_states
      then returns (finish c r)
      else dispatch c round (get_ready r.queue r.node_states) r

  -- One turn after the other, until one returns.
  unfoldable pub sched_loop : Call V → ℕ → ℕ → Run V → Answer V
  sched_loop c zero round r = out_of_fuel
  sched_loop c (suc fuel) round r = elim (turn c round r) [
    | goes_on after ↦ sched_loop c fuel (suc round) after
    | returns answer ↦ answer
  ]

  unfoldable pub initial : Call V → Option Envelope → Run V
  initial c envelope = record {
    queue = with_max_concurrent_nodes (new c.graph) c.scheduler.max_concurrent;
    node_states = [];
    outputs = [];
    total_cost = zero_usd;
    total_tokens = 0;
    loop_iterations = [];
    envelope = envelope;
  }

  unfoldable pub run_inner : Call V → ℕ → Option Envelope → Answer V
  run_inner c fuel envelope = sched_loop c fuel 0 (initial c envelope)
