-- ===== src/Scheduler/Run/Handle.antt =====
-- The results of a batch, one by one: `run_inner` of crates/fusion-scheduler/src/lib.rs. The sum of
-- tokens is a plain `+=` on u64, which wraps around where overflow is not checked.
use fusion_router.Prelude.{
  ℕ, ◌+◌, ◌%◌, ◌^◌, Bool, true, false, not, List, [], ◌∷◌, ◌++◌, Option, none, some, ltb, nat_eq,
  text_eq, if◌then◌else◌, Text, codes, ◌==◌,
}
use fusion_router.Prelude.Words.{wrapping_add}
use fusion_router.Prelude.Maps.{Map, get, get_or, put, touch}
use fusion_router.Money.{NanoUsd, saturating_add_usd}
use fusion_router.Budget.Envelope.{
  Envelope, BudgetExceeded, Outcome, breach_message, ok, err, record_and_check, increment_iteration,
}
use fusion_router.Scheduler.Graph.{
  NodeId, ExecutionNode, ExecutionEdge, NodeState, pending, running, succeeded, skipped, failed,
  is_terminal, conditional, loop, ExecutionNodeKind,
}
use fusion_router.Scheduler.Queue.{
  has_condition, mark_conditional_completed, mark_completed, activate_edge,
}
use fusion_router.Scheduler.Queue.Select.{
  has_loop_back_edge, loop_back_target, reset_loop_body, reset_ready,
}
use fusion_router.Scheduler.Run.{
  Usage, NodeExecutionResult, Json, Run, Flow, proceeds, stops, breaches, errs, Call, price_for,
  node_cost, node_at, targets_where, activate_all,
}
use fusion_router.Scheduler.Run.Cascade.{fail_node}

abbrev pub node_not_found : Text
node_not_found = codes "NODE_NOT_FOUND"

abbrev pub passes : Text → ExecutionEdge → Bool
passes value e = elim e.condition [ none ↦ true | some c ↦ c == value ]

abbrev pub is_exit : ExecutionEdge → Bool
is_exit e = has_condition (codes "exit") e

unfoldable pub set_pending : List NodeId → Map NodeId NodeState → Map NodeId NodeState
set_pending [] states = states
set_pending (id ∷ ids) states = set_pending ids (put id pending states)

-- What a breach does to the states: unfinished nodes of the batch fail, all others are skipped.
unfoldable pub fail_batch :
    BudgetExceeded → List NodeId → Map NodeId NodeState → Map NodeId NodeState
fail_batch e [] states = states
fail_batch e (id ∷ ids) states = fail_batch e ids (
    if is_terminal (get id states)
    then states
    else put id (failed (codes "Budget breached: " ++ breach_message e)) states)

-- `!contains_key(..) || matches!(.., Some(Pending | Running))`
unfoldable pub is_outstanding : Option NodeState → Bool
is_outstanding none = true
is_outstanding (some pending) = true
is_outstanding (some running) = true
is_outstanding (some _) = false

unfoldable pub skip_outstanding : List ExecutionNode → Map NodeId NodeState → Map NodeId NodeState
skip_outstanding [] states = states
skip_outstanding (n ∷ nodes) states =
    skip_outstanding nodes
      (if is_outstanding (get n.id states) then put n.id skipped states else states)

-- The loop's limit is cast to `u32`.
unfoldable pub iteration_limit : ExecutionNode → ℕ
iteration_limit n = (elim n.max_iterations [ none ↦ 10 | some k ↦ k ]) % 2 ^ 32

abbrev pub model_of : List ExecutionNode → NodeId → Text
model_of nodes id = elim (node_at nodes id) [ none ↦ [] | some n ↦ n.model ]

unfoldable pub refused : Outcome (Unit {0}) → Option BudgetExceeded
refused (ok _) = none
refused (err e) = some e

module _ {V : Type 0} where
  -- A node's own result: its state, and its output if it succeeded.
  unfoldable pub store : Json V → NodeId → NodeState → Option V → Run V → Run V
  store json id succeeded output r = record r {
    node_states = put id succeeded r.node_states;
    outputs = put id (elim output [ none ↦ json.null | some v ↦ v ]) r.outputs;
  }
  store json id state output r = record r { node_states = put id state r.node_states }

  unfoldable pub cost_of : Call V → NodeId → Usage → NanoUsd
  cost_of c id usage = node_cost (price_for c.scheduler (model_of c.graph.nodes id)) usage

  -- The totals after a result that reports usage, and the envelope's verdict.
  unfoldable pub add_usage : Call V → NodeId → Usage → Run V → Run V
  add_usage c id usage r = record r {
    total_tokens = wrapping_add r.total_tokens usage.total_tokens;
    total_cost = saturating_add_usd r.total_cost (cost_of c id usage);
  }

  unfoldable pub charge :
      Call V → Option Envelope → NodeId → Usage → Run V → Run V × Option BudgetExceeded
  charge c none id usage r = (add_usage c id usage r, none)
  charge c (some e) id usage r =
      let checked = record_and_check e (cost_of c id usage) usage.total_tokens in
      (record (add_usage c id usage r) { envelope = some checked.0 }, refused checked.1)

  unfoldable pub account : Call V → NodeId → Option Usage → Run V → Run V × Option BudgetExceeded
  account c id none r = (r, none)
  account c id (some usage) r = charge c r.envelope id usage r

  -- The early return.
  unfoldable pub breach :
      Call V → List NodeId → NodeId → NodeExecutionResult V → BudgetExceeded → Run V → Run V
  breach c batch id result e r =
      let kept = store c.json id result.state result.output r in
      record kept {
        node_states = skip_outstanding c.graph.nodes (fail_batch e batch kept.node_states);
      }

  -- A node that decides: the edges without a condition or with the result as theirs are activated.
  abbrev pub decision : Json V → NodeId → Run V → Text
  decision json id r = elim (get id r.outputs) [
    | none ↦ codes "true"
    | some v ↦ elim (json.as_str v) [ none ↦ codes "true" | some t ↦ t ]
  ]

  unfoldable pub finish_conditional : Json V → NodeId → Run V → Run V
  finish_conditional json id r =
      let q = mark_conditional_completed r.queue id in
      record r { queue = activate_all q id (targets_where (passes (decision json id r)) q id) }

  -- A loop's head: it arms its body again, or opens its exits.
  abbrev pub continues : Json V → NodeId → Run V → Bool
  continues json id r = elim (get id r.outputs) [
    | none ↦ false
    | some v ↦ elim (json.as_bool v) [ none ↦ false | some b ↦ b ]
  ]

  unfoldable pub arm_body : NodeId → Run V → Run V
  arm_body id r =
      let body = targets_where (λ e. not (is_exit e)) r.queue id in
      record r {
        node_states = set_pending body r.node_states;
        queue = activate_all (reset_loop_body r.queue body) id body;
      }

  unfoldable pub arm_exits : NodeId → Run V → Run V
  arm_exits id r = record r { queue = activate_all r.queue id (targets_where is_exit r.queue id) }

  -- With an envelope the iteration is counted first, and a refusal breaks out of the loop.
  unfoldable pub arm_if : Outcome ℕ → NodeId → Run V → Flow V
  arm_if (ok _) id r = proceeds (arm_body id r)
  arm_if (err _) id r = stops r

  unfoldable pub count_and_arm : Option Envelope → NodeId → Run V → Flow V
  count_and_arm none id r = proceeds (arm_body id r)
  count_and_arm (some e) id r =
      let counted = increment_iteration e in
      arm_if counted.1 id (record r { envelope = some counted.0 })

  unfoldable pub finish_loop : Json V → NodeId → Run V → Flow V
  finish_loop json id r =
      let completed = record r { queue = mark_completed r.queue id } in
      if continues json id completed
      then count_and_arm completed.envelope id completed
      else proceeds (arm_exits id completed)

  -- A node at the end of a loop's body: the loop's head runs again while its limit allows it.
  unfoldable pub again : NodeId → NodeId → Run V → Run V
  again id head r =
      let body = targets_where (λ e. not (is_exit e)) r.queue head in
      record r {
        loop_iterations = put head (get_or head 0 r.loop_iterations + 1) r.loop_iterations;
        node_states = put head pending (set_pending body r.node_states);
        queue = activate_edge (reset_ready (reset_loop_body r.queue body) head) id head;
      }

  unfoldable pub loop_back : Option ExecutionNode → NodeId → NodeId → Run V → Flow V
  loop_back none id head r = errs node_not_found
  loop_back (some n) id head r =
      let entered = record r { loop_iterations = touch head 0 r.loop_iterations } in
      if ltb (get_or head 0 entered.loop_iterations) (iteration_limit n)
      then proceeds (again id head entered)
      else proceeds entered

  unfoldable pub go_back : Call V → Option NodeId → NodeId → Run V → Flow V
  go_back c none id r = proceeds r
  go_back c (some head) id r = loop_back (node_at c.graph.nodes head) id head r

  unfoldable pub finish_plain : Call V → NodeId → Run V → Flow V
  finish_plain c id r =
      let completed = record r { queue = mark_completed r.queue id } in
      if has_loop_back_edge completed.queue id
      then go_back c (loop_back_target completed.queue id) id completed
      else proceeds completed

  unfoldable pub finish_kind : Call V → NodeId → ExecutionNodeKind → Run V → Flow V
  finish_kind c id conditional r = proceeds (finish_conditional c.json id r)
  finish_kind c id loop r = finish_loop c.json id r
  finish_kind c id _ r = finish_plain c id r

  unfoldable pub finish_node : Call V → Option ExecutionNode → NodeId → Run V → Flow V
  finish_node c none id r = errs node_not_found
  finish_node c (some n) id r = finish_kind c id n.kind r

  -- What a result does once its usage is within the budget.
  unfoldable pub settle : Call V → NodeId → NodeState → Option V → Run V → Flow V
  settle c id succeeded output r =
      finish_node c (node_at c.graph.nodes id) id (store c.json id succeeded output r)
  settle c id (failed message) output r = proceeds (fail_node id message r)
  settle c id state output r =
      proceeds
        (record r { queue = mark_completed r.queue id; node_states = put id state r.node_states })

  unfoldable pub verdict :
      Call V → List NodeId → NodeId → NodeExecutionResult V → Option BudgetExceeded → Run V → Flow V
  verdict c batch id result none r = settle c id result.state result.output r
  verdict c batch id result (some e) r = breaches (breach c batch id result e r)

  unfoldable pub handle : Call V → List NodeId → NodeId → NodeExecutionResult V → Run V → Flow V
  handle c batch id result r =
      let charged = account c id result.usage r in verdict c batch id result charged.1 charged.0

  abbrev pub and_then : Flow V → (Run V → Flow V) → Flow V
  and_then (proceeds r) f = f r
  and_then flow f = flow

  unfoldable pub handle_all :
      Call V → List NodeId → List (NodeId × NodeExecutionResult V) → Run V → Flow V
  handle_all c batch [] r = proceeds r
  handle_all c batch ((id, result) ∷ results) r =
      and_then (handle c batch id result r) (handle_all c batch results)
