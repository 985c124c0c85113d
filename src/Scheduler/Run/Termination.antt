-- ===== src/Scheduler/Run/Termination.antt =====
-- When the loop of `run_inner` ends: crates/fusion-scheduler/src/lib.rs.
use fusion_router.Prelude.{
  length-keep-le, ℕ, zero, suc, ◌≤◌, ◌<◌, ◌≡◌, ◌≢◌, refl, sym, subst, ap, false, List, [], ◌∷◌,
  Option, arith, length, map, take,
}
use fusion_router.Budget.Envelope.{Envelope}
use fusion_router.Scheduler.Graph.{ExecutionNode}
use fusion_router.Scheduler.Queue.Backs.{loop_heads}
use fusion_router.Scheduler.Queue.Select.{get_ready, is_done}
use fusion_router.Scheduler.Run.{Run, Call}
use fusion_router.Scheduler.Run.Answers.{AtHead, Round-AtHead, initial-AtHead}
use fusion_router.Scheduler.Run.Handle.{handle_all}
use fusion_router.Scheduler.Run.Loop.{
  out_of_fuel, finished, error, Turn, goes_on, returns, turn, sched_loop, initial, run_inner,
  batch_ids, is_cancelled, dispatch, run_batch, start_batch, turn_of,
}
use fusion_router.Scheduler.Run.Progress.{open_nodes, Round-fewer}
use fusion_router.Scheduler.Run.Turns.{Round, Turned, turn-Turned}

module _ {V : Type 0} (c : Call V) where
  answers :
      (fuel round : ℕ) (r : Run V) (t : Turn V)
      → Turned c round r t
      → ((after : Run V) → Round c r after → sched_loop c fuel (suc round) after ≢ out_of_fuel)
      → (elim t [ goes_on after ↦ sched_loop c fuel (suc round) after | returns answer ↦ answer ])
        ≢ out_of_fuel
  answers fuel round r (goes_on after) turned later = later after turned
  answers fuel round r (returns (finished outcome envelope)) turned later = λ e. cc e
  answers fuel round r (returns (error code)) turned later = λ e. cc e
  answers fuel round r (returns out_of_fuel) turned later = absurd turned

  module _ (no_loops : loop_heads c.graph ≡ []) (some_room : 1 ≤ c.scheduler.max_concurrent) where
    loop-terminates :
        (fuel round : ℕ) (r : Run V)
        → AtHead c r
        → open_nodes r.queue c.graph.nodes < fuel
        → sched_loop c fuel round r ≢ out_of_fuel
    unfolding sched_loop
    loop-terminates zero round r head h = absurd (omega arith)
    loop-terminates (suc fuel) round r head h =
        answers fuel round r (turn c round r) (turn-Turned c round r head.fixed head.idle)
          (λ after turned.
            loop-terminates fuel (suc round) after (Round-AtHead c r after head turned)
              (omega (arith, Round-fewer c no_loops r after some_room head turned)))

  -- On a graph without loop nodes and with room for at least one node, a run answers within one round
  -- more than the graph has nodes, whatever the executor, the token and the envelope do.
  pub loop_free_terminates :
      (envelope : Option Envelope) (fuel : ℕ)
      → loop_heads c.graph ≡ []
      → 1 ≤ c.scheduler.max_concurrent
      → length c.graph.nodes < fuel
      → run_inner c fuel envelope ≢ out_of_fuel
  unfolding run_inner
  loop_free_terminates envelope fuel no_loops some_room enough =
      loop-terminates no_loops some_room fuel 0 (initial c envelope) (initial-AtHead c envelope)
        (omega (arith, length-keep-le _ c.graph.nodes))

  -- An empty batch changes nothing.
  no_room-goes_on :
      (round : ℕ) (r : Run V)
      → c.scheduler.max_concurrent ≡ 0
      → is_cancelled c round ≡ false
      → is_done r.queue r.node_states ≡ false
      → (first : ExecutionNode) (others : List ExecutionNode)
      → get_ready r.queue r.node_states ≡ first ∷ others
      → turn c round r ≡ goes_on r
  unfolding turn dispatch run_batch batch_ids start_batch turn_of handle_all
  no_room-goes_on round r none_at_once going open_left first others e =
      let empty : batch_ids c (first ∷ others) ≡ [] =
        ap (λ k. map (λ n. n.id) (take k (first ∷ others))) none_at_once in
      rw (going, open_left, e, turn)
        (subst (λ batch. run_batch c batch (start_batch c round batch r) ≡ goes_on r) (sym empty)
          refl)

  no_room-loops :
      (fuel round : ℕ) (r : Run V)
      → ((k : ℕ) → turn c k r ≡ goes_on r)
      → sched_loop c fuel round r ≡ out_of_fuel
  unfolding sched_loop
  no_room-loops zero round r stuck = refl
  no_room-loops (suc fuel) round r stuck =
      rw (stuck round, sched_loop) (no_room-loops fuel (suc round) r stuck)

  -- With room for no node, a run never answers, however many rounds it is given, once the graph has a
  -- node that may run at the start: the queue hands it out, but the batch stays empty. The token is
  -- never seen as cancelled at the loop's head.
  pub no_room_never_answers :
      (envelope : Option Envelope) (first : ExecutionNode) (others : List ExecutionNode) (fuel : ℕ)
      → c.scheduler.max_concurrent ≡ 0
      → ((round : ℕ) → is_cancelled c round ≡ false)
      → is_done (initial c envelope).queue [] ≡ false
      → get_ready (initial c envelope).queue [] ≡ first ∷ others
      → run_inner c fuel envelope ≡ out_of_fuel
  unfolding run_inner initial
  no_room_never_answers envelope first others fuel none_at_once going open_left e =
      no_room-loops fuel 0 (initial c envelope) (λ round.
        no_room-goes_on round (initial c envelope) none_at_once (going round) open_left first others
          e)
