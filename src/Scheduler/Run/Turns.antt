-- ===== src/Scheduler/Run/Turns.antt =====
-- One turn of the scheduler's loop: `run_inner` of crates/fusion-scheduler/src/lib.rs.
use fusion_router.Prelude.{
  ℕ, zero, suc, ◌≡◌, ◌⊎◌, refl, sym, subst, ap, ◌∙◌, true, false, List, [], ◌∷◌, none, some, arith,
  nat_eq, All, map, take, Bool-cases, inl, inr,
}
use fusion_router.Prelude.Sets.{contains, contains-insert}
use fusion_router.Scheduler.Graph.{NodeId, ExecutionNode}
use fusion_router.Scheduler.Queue.{mark_in_progress}
use fusion_router.Scheduler.Queue.Select.{get_ready, is_done, any_in_progress}
use fusion_router.Scheduler.Queue.Frame.{static}
use fusion_router.Scheduler.Queue.Steps.{Reach, starts, next}
use fusion_router.Scheduler.Run.{
  NodeExecutionResult, Run, Flow, proceeds, stops, breaches, errs, Call,
}
use fusion_router.Scheduler.Run.Handle.{handle_all}
use fusion_router.Scheduler.Run.Idle.{none_in_progress}
use fusion_router.Scheduler.Run.Loop.{
  Answer, finished, error, out_of_fuel, Turn, goes_on, returns, Started, answer_too, start_batch,
  execute, mark_running, turn_of, batch_ids, run_batch, dispatch, turn, finish, conclude,
  is_cancelled, cancelled_code,
}
use fusion_router.Scheduler.Run.Moves.{Passage, all_passed}
use fusion_router.Scheduler.Run.Nodes.{ids, node_at-some, node_at-id, get_ready-known}
use fusion_router.Scheduler.Run.Passages.{Breached, Handled, ids_with, handle_all-Handled}
use fusion_router.Scheduler.Run.Settle.{Fixed, edges_of}

All-ids :
    (k : ℕ) (known : List NodeId) (nodes : List ExecutionNode)
    → All (λ n. contains known n.id ≡ true) nodes
    → All (λ id. contains known id ≡ true) (map (λ n. n.id) (take k nodes))
All-ids zero known nodes h = tt
All-ids (suc k) known [] h = tt
All-ids (suc k) known (n ∷ nodes) h = (h.0, All-ids k known nodes h.1)

module _ {V : Type 0} (c : Call V) where
  -- A batch that was started: its nodes are marked, and each has one result.
  pub record Launched (batch : List NodeId) (r started : Run V)
      (results : List (NodeId × NodeExecutionResult V)) : Type 0 where
    pub in_order : ids_with c results ≡ batch
    pub statics : static started.queue ≡ static r.queue
    pub completed_same : started.queue.completed ≡ r.queue.completed
    pub failed_same : started.queue.failed ≡ r.queue.failed
    pub same_cost : started.total_cost ≡ r.total_cost
    pub same_envelope : started.envelope ≡ r.envelope
    pub reached : Reach c.graph r.queue → Reach c.graph started.queue
    pub busy :
        (v : NodeId)
        → contains started.queue.in_progress v ≡ true
        → (contains batch v ≡ true) ⊎ (contains r.queue.in_progress v ≡ true)

  abbrev Launches : List NodeId → Run V → Started V → Type 0
  Launches batch r none = ⊥
  Launches batch r (some (started, results)) = Launched batch r started results

  first-Launches :
      (round : ℕ) (id : NodeId) (batch : List NodeId) (r : Run V)
      (result : NodeId × NodeExecutionResult V) (rest : Started V)
      → result.0 ≡ id
      → Launches batch (mark_running id r) rest
      → Launches (id ∷ batch) r (answer_too result rest)
  unfolding answer_too mark_running mark_in_progress contains
  first-Launches round id batch r result none same h = h
  first-Launches round id batch r result (some (started, results)) same h = record {
    in_order = ap (λ i. i ∷ ids_with c results) same ∙ ap (λ is. id ∷ is) h.in_order;
    statics = h.statics;
    completed_same = h.completed_same;
    failed_same = h.failed_same;
    same_cost = h.same_cost;
    same_envelope = h.same_envelope;
    reached = λ h'. h.reached (next h' (starts r.queue id));
    busy = λ v b. ground (arith, h.busy v b, contains-insert id v r.queue.in_progress);
  }

  start_batch-Launches :
      (round : ℕ) (batch : List NodeId) (r : Run V)
      → All (λ id. contains (ids c.graph.nodes) id ≡ true) batch
      → Launches batch r (start_batch c round batch r)
  unfolding start_batch execute
  start_batch-Launches round [] r known = record {
    in_order = refl;
    statics = refl;
    completed_same = refl;
    failed_same = refl;
    same_cost = refl;
    same_envelope = refl;
    reached = λ h. h;
    busy = λ v b. inr b;
  }
  start_batch-Launches round (id ∷ batch) r known =
      let (n, found) = node_at-some c.graph.nodes id known.0 in
      rw (found, start_batch)
        (first-Launches round id batch r _ _ (node_at-id c.graph.nodes id n found)
          (start_batch-Launches round batch _ known.1))

  -- A turn that dispatches a batch and goes on.
  pub record Round (r after : Run V) : Type 0 where
    pub first : ExecutionNode
    pub others : List ExecutionNode
    pub chosen : get_ready r.queue r.node_states ≡ first ∷ others
    pub started : Run V
    pub results : List (NodeId × NodeExecutionResult V)
    pub launched : Launched (batch_ids c (first ∷ others)) r started results
    pub passage : Passage c (batch_ids c (first ∷ others)) started after

  -- The last turn: the state in which the loop is left, with the batch's results so far, or the
  -- breach of the budget.
  pub record Left (r : Run V) (answer : Answer V) : Type 0 where
    pub batch : List NodeId
    pub started : Run V
    pub same_cost : started.total_cost ≡ r.total_cost
    pub same_envelope : started.envelope ≡ r.envelope
    pub seen : List NodeId
    pub last : Run V
    pub passage : Passage c seen started last
    pub answered : answer ≡ finish c last

  pub record Cut (r : Run V) (answer : Answer V) : Type 0 where
    pub started : Run V
    pub same_cost : started.total_cost ≡ r.total_cost
    pub same_envelope : started.envelope ≡ r.envelope
    pub last : Run V
    pub breached : Breached c started last
    pub answered : answer ≡ conclude false last

  abbrev pub Turned : ℕ → Run V → Turn V → Type 0
  Turned round r (goes_on after) = Round r after
  Turned round r (returns (finished outcome envelope)) =
      Left r (finished outcome envelope) ⊎ Cut r (finished outcome envelope)
  Turned round r (returns (error code)) = (code ≡ cancelled_code) × (is_cancelled c round ≡ true)
  Turned round r (returns out_of_fuel) = ⊥

  stays-Turned : (round : ℕ) (r : Run V) → Turned round r (returns (finish c r))
  unfolding finish conclude
  stays-Turned round r = inl (record {
    batch = [];
    started = r;
    same_cost = refl;
    same_envelope = refl;
    seen = [];
    last = r;
    passage = all_passed r;
    answered = refl;
  })

  flow-Turned :
      (round : ℕ) (r : Run V) (first : ExecutionNode) (others : List ExecutionNode)
      (started : Run V) (results : List (NodeId × NodeExecutionResult V)) (flow : Flow V)
      → get_ready r.queue r.node_states ≡ first ∷ others
      → Launched (batch_ids c (first ∷ others)) r started results
      → Handled c (batch_ids c (first ∷ others)) started flow
      → Turned round r (turn_of c flow)
  unfolding turn_of finish conclude
  flow-Turned round r first others started results (proceeds after) e l h = record {
    first = first;
    others = others;
    chosen = e;
    started = started;
    results = results;
    launched = l;
    passage = h;
  }
  flow-Turned round r first others started results (stops after) e l h = inl (record {
    batch = batch_ids c (first ∷ others);
    started = started;
    same_cost = l.same_cost;
    same_envelope = l.same_envelope;
    seen = h.0;
    last = after;
    passage = h.1;
    answered = refl;
  })
  flow-Turned round r first others started results (breaches after) e l h = inr (record {
    started = started;
    same_cost = l.same_cost;
    same_envelope = l.same_envelope;
    last = after;
    breached = h;
    answered = refl;
  })
  flow-Turned round r first others started results (errs code) e l h = absurd h

  batch-Turned :
      (round : ℕ) (r : Run V) (first : ExecutionNode) (others : List ExecutionNode) (s : Started V)
      → Fixed c.graph r.queue
      → All (λ id. contains (ids c.graph.nodes) id ≡ true) (batch_ids c (first ∷ others))
      → get_ready r.queue r.node_states ≡ first ∷ others
      → Launches (batch_ids c (first ∷ others)) r s
      → Turned round r (run_batch c (batch_ids c (first ∷ others)) s)
  unfolding run_batch
  batch-Turned round r first others none fixed known e l = absurd l
  batch-Turned round r first others (some (started, results)) fixed known e l =
      let Known =
        λ (batch : List NodeId). All (λ id. contains (ids c.graph.nodes) id ≡ true) batch in
      let batch = batch_ids c (first ∷ others) in
      flow-Turned round r first others started results _ e l (
        subst (λ is. Handled c is started (handle_all c batch results started)) l.in_order
          (handle_all-Handled c batch results started
            (edges_of c.graph r.queue started.queue l.statics fixed)
            (subst Known (sym l.in_order) known)))

  ready-Turned :
      (round : ℕ) (r : Run V) (ready : List ExecutionNode)
      → Fixed c.graph r.queue
      → any_in_progress r.queue ≡ false
      → get_ready r.queue r.node_states ≡ ready
      → All (λ n. contains (ids c.graph.nodes) n.id ≡ true) ready
      → Turned round r (dispatch c round ready r)
  unfolding dispatch batch_ids
  ready-Turned round r [] fixed idle e known = rw (idle, dispatch) (stays-Turned round r)
  ready-Turned round r (first ∷ others) fixed idle e known =
      let batch_known =
        All-ids c.scheduler.max_concurrent (ids c.graph.nodes) (first ∷ others) known in
      batch-Turned round r first others _ fixed batch_known e
        (start_batch-Launches round (batch_ids c (first ∷ others)) r batch_known)

  -- While no node is in progress at the loop's head, a turn dispatches a batch, or ends the loop; it
  -- does not poll, and the only error is the cancellation.
  pub turn-Turned :
      (round : ℕ) (r : Run V)
      → Fixed c.graph r.queue
      → ((v : NodeId) → contains r.queue.in_progress v ≡ false)
      → Turned round r (turn c round r)
  unfolding turn
  turn-Turned round r fixed idle = elim (Bool-cases (is_cancelled c round)) [
    | inl cancelled ↦ rw (cancelled, turn) (refl, cancelled)
    | inr going ↦ elim (Bool-cases (is_done r.queue r.node_states)) [
      | inl all_done ↦ rw (going, all_done, turn) (stays-Turned round r)
      | inr open_left ↦
          rw (going, open_left, turn)
            (ready-Turned round r (get_ready r.queue r.node_states) fixed
              (none_in_progress r.queue idle) refl
              (subst
                (λ h.
                  All (λ n. contains (ids h.nodes) n.id ≡ true) (get_ready r.queue r.node_states))
                fixed.0 (get_ready-known r.queue r.node_states)))
    ]
  ]
