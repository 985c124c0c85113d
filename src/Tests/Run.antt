-- ===== src/Tests/Run.antt =====
-- The scheduler's run: the theorems at a chain of two nodes.
use fusion_router.Prelude.{
  ℕ, ◌≤◌, ◌≡◌, ◌≢◌, ◌⊎◌, refl, true, false, [], ◌∷◌, Option, none, some, nat_eq, pair_eq, arith,
  All,
}
use fusion_router.Prelude.Sets.{contains}
use fusion_router.Prelude.Maps.{get}
use fusion_router.Prelude.Words.{saturating_add}
use fusion_router.Budget.Envelope.{Envelope}
use fusion_router.Scheduler.Graph.{
  NodeId, ExecutionNode, ExecutionGraph, llm_generate, succeeded, skipped,
}
use fusion_router.Scheduler.Run.{
  NodeExecutionResult, Json, Executor, Run, ExecutionOutcome, Call, CancellationToken,
  with_max_concurrent,
}
use fusion_router.Scheduler.Graph.{is_terminal}
use fusion_router.Scheduler.Queue.Backs.{loop_heads}
use fusion_router.Scheduler.Queue.Build.{pairs}
use fusion_router.Scheduler.Queue.Select.{is_done, get_ready}
use fusion_router.Scheduler.Run.Answers.{
  first_round, next_round, never_polls, only_cancellation_fails,
}
use fusion_router.Scheduler.Run.Cascade.{is_waiting, dependency_failed, fail_node}
use fusion_router.Scheduler.Run.Downstream.Failures.{failure_reaches_dependents}
use fusion_router.Scheduler.Run.Safety.{dispatch_safety}
use fusion_router.Scheduler.Run.Settle.{Fixed}
use fusion_router.Scheduler.Run.Spending.{run_costs}
use fusion_router.Scheduler.Run.Spending.Breaches.{breach_stops}
use fusion_router.Scheduler.Run.Termination.{loop_free_terminates, no_room_never_answers}
use fusion_router.Scheduler.Run.Loop.{
  turn, goes_on, returns, Answer, finished, error, out_of_fuel, run_inner, is_cancelled,
  cancelled_code, initial,
}
use fusion_router.Budget.Envelope.{breach_message, commit, increment_iteration, record_and_check}
use fusion_router.Money.{from_nanos, saturating_add_usd}
use fusion_router.Prelude.Maps.{increment, push_at, put, touch}
use fusion_router.Prelude.Sets.{insert, remove}
use fusion_router.Scheduler.Queue.{
  activate, activate_edge, activate_new, activate_targets, all_structural_backs, body_of,
  count_incoming, ids_of, index_edges, initially_ready, mark_completed, mark_conditional_completed,
  mark_failed, mark_in_progress, marked_backs, new, push_unseen, reach_from, structural_backs,
  touch_all, try_activate_downstream, with_max_concurrent_nodes,
}
use fusion_router.Scheduler.Queue.Select.{
  any_in_progress, dispatchable, has_loop_back_edge, incoming_edges, insert_by_id, loop_back_target,
  outgoing_edges, reset_body_node, reset_loop_body, reset_ready, sort_by_id,
}
use fusion_router.Scheduler.Run.{
  activate_all, flat_fallback, node_at, node_cost, price_for, targets_where,
}
use fusion_router.Scheduler.Run.Cascade.{all_targets, cascade, expand, push_all, set_failed, visit}
use fusion_router.Scheduler.Run.Handle.{
  account, add_usage, again, arm_body, arm_exits, arm_if, breach, charge, cost_of, count_and_arm,
  fail_batch, finish_conditional, finish_kind, finish_loop, finish_node, finish_plain, go_back,
  handle, handle_all, is_outstanding, iteration_limit, loop_back, refused, set_pending, settle,
  skip_outstanding, store, verdict,
}
use fusion_router.Scheduler.Run.Loop.{
  answer_too, batch_ids, conclude, context_of, dispatch, execute, finish, is_success, mark_running,
  parent_outputs, run_batch, sched_loop, start_batch, succeeded_everywhere, turn_of,
}

abbrev node : ℕ → ExecutionNode
node n = record { id = n; kind = llm_generate; model = []; max_iterations = none }

abbrev chain : ExecutionGraph
chain = record {
  nodes = node 1 ∷ node 2 ∷ [];
  edges = record { source = 1; target = 2; condition = none } ∷ [];
}

abbrev json : Json ℕ
json = record { null = 0; as_str = λ _. none; as_bool = λ _. none }

abbrev result : NodeExecutionResult ℕ
result = record {
  state = succeeded;
  usage = some (record { prompt_tokens = 2; completion_tokens = 1; total_tokens = 3 });
  output = some 7;
}

abbrev executor : Executor ℕ
executor = record { execute_node = λ _ _ _. result }

abbrev call : ℕ → Option CancellationToken → Call ℕ
call room cancel = record {
  scheduler = with_max_concurrent room;
  graph = chain;
  json = json;
  executor = executor;
  cancel = cancel;
}

abbrev envelope : ℕ → Envelope
envelope ceiling = record {
  max_cost = record { nanos = ceiling };
  max_tokens = 100;
  max_iterations = 5;
  spent_cost = 10;
  spent_tokens = 0;
  current_iterations = 0;
}

abbrev rich : Answer ℕ
rich = run_inner (call 4 none) 3 (some (envelope 100_000))

abbrev poor : Answer ℕ
poor = run_inner (call 4 none) 3 (some (envelope 12_000))

abbrev rich_outcome : ExecutionOutcome ℕ
rich_outcome = record {
  success = true;
  outputs = (1, 7) ∷ (2, 7) ∷ [];
  node_states = (1, succeeded) ∷ (2, succeeded) ∷ [];
  total_cost = record { nanos = 28_000 };
  total_tokens = 6;
}

abbrev rich_after : Envelope
rich_after = record (envelope 100_000) { spent_cost = 28_010; spent_tokens = 6 }

rich_answered : rich ≡ finished rich_outcome (some rich_after)
unfolding is_success parent_outputs context_of execute mark_running answer_too start_batch conclude
    succeeded_everywhere finish turn_of batch_ids run_batch dispatch turn sched_loop initial
    run_inner set_pending fail_batch is_outstanding skip_outstanding iteration_limit refused store
    cost_of add_usage charge account breach finish_conditional arm_body arm_exits arm_if
    count_and_arm finish_loop again loop_back go_back finish_plain finish_kind finish_node settle
    verdict handle handle_all push_all is_waiting all_targets set_failed expand visit cascade
    fail_node flat_fallback with_max_concurrent price_for node_cost node_at targets_where
    activate_all ids_of touch_all index_edges push_unseen reach_from body_of structural_backs
    all_structural_backs marked_backs count_incoming initially_ready new with_max_concurrent_nodes
    activate activate_new activate_targets try_activate_downstream mark_conditional_completed
    mark_completed activate_edge mark_failed mark_in_progress insert_by_id sort_by_id dispatchable
    get_ready is_done any_in_progress outgoing_edges incoming_edges has_loop_back_edge
    loop_back_target reset_body_node reset_loop_body reset_ready contains insert remove get put
    increment touch push_at commit record_and_check increment_iteration breach_message from_nanos
    saturating_add_usd
rich_answered = refl

run_costs_example : 28_010 ≡ saturating_add 10 28_000
run_costs_example =
    run_costs (call 4 none) 3 (envelope 100_000) rich_after rich_outcome (omega arith) rich_answered

abbrev poor_outcome : ExecutionOutcome ℕ
poor_outcome = record {
  success = false;
  outputs = (1, 7) ∷ [];
  node_states = (1, succeeded) ∷ (2, skipped) ∷ [];
  total_cost = record { nanos = 14_000 };
  total_tokens = 3;
}

abbrev poor_after : Envelope
poor_after = record (envelope 12_000) { spent_cost = 14_010; spent_tokens = 3 }

poor_answered : poor ≡ finished poor_outcome (some poor_after)
unfolding is_success parent_outputs context_of execute mark_running answer_too start_batch conclude
    succeeded_everywhere finish turn_of batch_ids run_batch dispatch turn sched_loop initial
    run_inner set_pending fail_batch is_outstanding skip_outstanding iteration_limit refused store
    cost_of add_usage charge account breach finish_conditional arm_body arm_exits arm_if
    count_and_arm finish_loop again loop_back go_back finish_plain finish_kind finish_node settle
    verdict handle handle_all push_all is_waiting all_targets set_failed expand visit cascade
    fail_node flat_fallback with_max_concurrent price_for node_cost node_at targets_where
    activate_all ids_of touch_all index_edges push_unseen reach_from body_of structural_backs
    all_structural_backs marked_backs count_incoming initially_ready new with_max_concurrent_nodes
    activate activate_new activate_targets try_activate_downstream mark_conditional_completed
    mark_completed activate_edge mark_failed mark_in_progress insert_by_id sort_by_id dispatchable
    get_ready is_done any_in_progress outgoing_edges incoming_edges has_loop_back_edge
    loop_back_target reset_body_node reset_loop_body reset_ready contains insert remove get put
    increment touch push_at commit record_and_check increment_iteration breach_message from_nanos
    saturating_add_usd
poor_answered = refl

poor_over : (14_010 ≤ 12_000) × (3 ≤ 100) → ⊥
poor_over h = omega arith

breach_stops_example :
    (poor_outcome.success ≡ false)
    × All (λ n. is_terminal (get n.id poor_outcome.node_states) ≡ true) chain.nodes
breach_stops_example =
    breach_stops (call 4 none) 3 (envelope 12_000) poor_after poor_outcome (omega arith)
      (omega arith, omega arith) poor_answered poor_over

abbrev cancelled : Option CancellationToken
cancelled = some (record { is_cancelled = λ _. true; cancels_first = λ _ _. false })

cancelled_answered : run_inner (call 4 cancelled) 3 none ≡ error cancelled_code
unfolding run_inner sched_loop turn
cancelled_answered = refl

only_cancellation_fails_example :
    (cancelled_code ≡ cancelled_code) × (round : ℕ) × (is_cancelled (call 4 cancelled) round ≡ true)
only_cancellation_fails_example =
    only_cancellation_fails (call 4 cancelled) 3 none cancelled_code cancelled_answered

chain_loop_free : loop_heads chain ≡ []
unfolding ids_of
chain_loop_free = refl

loop_free_terminates_example : run_inner (call 4 none) 3 (some (envelope 12_000)) ≢ out_of_fuel
unfolding with_max_concurrent
loop_free_terminates_example =
    loop_free_terminates (call 4 none) (some (envelope 12_000)) 3 chain_loop_free (omega arith)
      (omega arith)

open_at_first : is_done (initial (call 0 none) none).queue [] ≡ false
unfolding is_success parent_outputs context_of execute mark_running answer_too start_batch conclude
    succeeded_everywhere finish turn_of batch_ids run_batch dispatch turn sched_loop initial
    run_inner set_pending fail_batch is_outstanding skip_outstanding iteration_limit refused store
    cost_of add_usage charge account breach finish_conditional arm_body arm_exits arm_if
    count_and_arm finish_loop again loop_back go_back finish_plain finish_kind finish_node settle
    verdict handle handle_all push_all is_waiting all_targets set_failed expand visit cascade
    fail_node flat_fallback with_max_concurrent price_for node_cost node_at targets_where
    activate_all ids_of touch_all index_edges push_unseen reach_from body_of structural_backs
    all_structural_backs marked_backs count_incoming initially_ready new with_max_concurrent_nodes
    activate activate_new activate_targets try_activate_downstream mark_conditional_completed
    mark_completed activate_edge mark_failed mark_in_progress insert_by_id sort_by_id dispatchable
    get_ready is_done any_in_progress outgoing_edges incoming_edges has_loop_back_edge
    loop_back_target reset_body_node reset_loop_body reset_ready contains insert remove get put
    increment touch push_at commit record_and_check increment_iteration breach_message from_nanos
    saturating_add_usd
open_at_first = refl

one_ready : get_ready (initial (call 0 none) none).queue [] ≡ node 1 ∷ []
unfolding is_success parent_outputs context_of execute mark_running answer_too start_batch conclude
    succeeded_everywhere finish turn_of batch_ids run_batch dispatch turn sched_loop initial
    run_inner set_pending fail_batch is_outstanding skip_outstanding iteration_limit refused store
    cost_of add_usage charge account breach finish_conditional arm_body arm_exits arm_if
    count_and_arm finish_loop again loop_back go_back finish_plain finish_kind finish_node settle
    verdict handle handle_all push_all is_waiting all_targets set_failed expand visit cascade
    fail_node flat_fallback with_max_concurrent price_for node_cost node_at targets_where
    activate_all ids_of touch_all index_edges push_unseen reach_from body_of structural_backs
    all_structural_backs marked_backs count_incoming initially_ready new with_max_concurrent_nodes
    activate activate_new activate_targets try_activate_downstream mark_conditional_completed
    mark_completed activate_edge mark_failed mark_in_progress insert_by_id sort_by_id dispatchable
    get_ready is_done any_in_progress outgoing_edges incoming_edges has_loop_back_edge
    loop_back_target reset_body_node reset_loop_body reset_ready contains insert remove get put
    increment touch push_at commit record_and_check increment_iteration breach_message from_nanos
    saturating_add_usd
one_ready = refl

no_room_never_answers_example : run_inner (call 0 none) 1_000 none ≡ out_of_fuel
unfolding with_max_concurrent
no_room_never_answers_example =
    no_room_never_answers (call 0 none) none (node 1) [] 1_000 refl (λ _. refl) open_at_first
      one_ready

-- The run behind the first round.
abbrev one_done : Run ℕ
one_done = elim (turn (call 4 none) 0 (initial (call 4 none) none)) [
  | goes_on r ↦ r
  | returns _ ↦ initial (call 4 none) none
]

first_turn : turn (call 4 none) 0 (initial (call 4 none) none) ≡ goes_on one_done
unfolding is_success parent_outputs context_of execute mark_running answer_too start_batch conclude
    succeeded_everywhere finish turn_of batch_ids run_batch dispatch turn sched_loop initial
    run_inner set_pending fail_batch is_outstanding skip_outstanding iteration_limit refused store
    cost_of add_usage charge account breach finish_conditional arm_body arm_exits arm_if
    count_and_arm finish_loop again loop_back go_back finish_plain finish_kind finish_node settle
    verdict handle handle_all push_all is_waiting all_targets set_failed expand visit cascade
    fail_node flat_fallback with_max_concurrent price_for node_cost node_at targets_where
    activate_all ids_of touch_all index_edges push_unseen reach_from body_of structural_backs
    all_structural_backs marked_backs count_incoming initially_ready new with_max_concurrent_nodes
    activate activate_new activate_targets try_activate_downstream mark_conditional_completed
    mark_completed activate_edge mark_failed mark_in_progress insert_by_id sort_by_id dispatchable
    get_ready is_done any_in_progress outgoing_edges incoming_edges has_loop_back_edge
    loop_back_target reset_body_node reset_loop_body reset_ready contains insert remove get put
    increment touch push_at commit record_and_check increment_iteration breach_message from_nanos
    saturating_add_usd
first_turn = refl

dispatch_safety_example :
    All
      (λ n.
        (u : NodeId)
        → contains (pairs chain) (u, n.id) ≡ true
        → (contains one_done.queue.activated_edges (u, n.id) ≡ true)
          × (contains one_done.queue.completed u ≡ true))
      (get_ready one_done.queue one_done.node_states)
dispatch_safety_example =
    dispatch_safety (call 4 none) none 1 one_done chain_loop_free
      (next_round first_round first_turn)

initial-Fixed : Fixed chain (initial (call 4 none) none).queue
unfolding initial new with_max_concurrent_nodes
initial-Fixed = (refl, refl, refl)

abbrev crashed : Run ℕ
crashed = fail_node 1 [] (initial (call 4 none) none)

failure_reaches_dependents_example :
    ((u v : NodeId)
      → contains (pairs chain) (u, v) ≡ true
      → (u ≡ 1)
        ⊎ ((is_waiting (get u (initial (call 4 none) none).node_states) ≡ true)
            × (is_waiting (get u crashed.node_states) ≡ false))
      → is_waiting (get v crashed.node_states) ≡ false)
    × ((v : NodeId)
        → 1 ≢ v
        → (get v crashed.node_states ≡ get v (initial (call 4 none) none).node_states)
          ⊎ ((is_waiting (get v (initial (call 4 none) none).node_states) ≡ true)
              × (get v crashed.node_states ≡ some dependency_failed)))
failure_reaches_dependents_example =
    failure_reaches_dependents chain 1 [] (initial (call 4 none) none) initial-Fixed

never_polls_example : any_in_progress one_done.queue ≡ false
never_polls_example = never_polls (call 4 none) none 1 one_done (next_round first_round first_turn)
