-- ===== src/Agent/Runner/Steps.antt =====
-- `step` and `run_until` of crates/fusion-agent-state/src/runner.rs. The loop ends by itself: it
-- counts to `max_steps`.
use fusion_router.Prelude.{
  ℕ, zero, suc, ◌+◌, Bool, Option, none, some, Text, ltb, length, if◌then◌else◌,
}
use fusion_router.Prelude.Words.{saturating_add}
use fusion_router.Json.{Json}
use fusion_router.Agent.Merge.{Result, ok, err}
use fusion_router.Agent.Store.{StateStore, Usage, AgentStep, CommittedTransition, apply_transition}
use fusion_router.Agent.Runner.{
  push, tokens_for_request, StepOutcome, cancelled, cancelled_before_commit, cancelled_before_tool,
  max_steps_reached, max_steps_exceeded, budget_would_exceed, budget_exceeded, refused_patch,
  failed_llm, failed_tool, Answer, answered, failed, Stepped, done, stopped, World, AgentRunner,
  entry_of, cancelled_observation, build_model_input,
}

-- The ceiling that an amount is above, if there is one.
abbrev pub over : Option ℕ → ℕ → Option ℕ
over none n = none
over (some max) n = if ltb max n then some max else none

-- An answer of 12 tokens is expected.
abbrev pub predicted : ℕ → ℕ → ℕ
predicted total input = saturating_add (saturating_add total input) 12

abbrev pub output_tokens : Option Usage → ℕ
output_tokens none = 12
output_tokens (some u) = u.completion_tokens

module _ {ℓ} {S : Type ℓ} ⦃s : StateStore S⦄ where
  abbrev pub log_outcome :
      ℕ
      → Json
      → AgentStep
      → CommittedTransition
      → Json
      → AgentRunner S
      → Stepped StepOutcome × AgentRunner S
  log_outcome t prev step committed observation r = (
    done (record {
      t = t;
      committed_state = committed.next_state;
      observation = observation;
      total_tokens = r.total_tokens;
    }),
    record r { log = push (entry_of t prev step committed observation) r.log },
  )

  abbrev pub conclude :
      Option ℕ
      → ℕ
      → Json
      → AgentStep
      → CommittedTransition
      → Json
      → AgentRunner S
      → Stepped StepOutcome × AgentRunner S
  conclude (some max) t prev step committed observation r =
      (stopped (budget_exceeded max r.total_tokens), r)
  conclude none t prev step committed observation r =
      log_outcome t prev step committed observation r

  -- The tool has answered; its tokens are counted before the step is logged.
  abbrev pub settle :
      ℕ
      → ℕ
      → Json
      → AgentStep
      → CommittedTransition
      → Answer Json
      → AgentRunner S
      → Stepped StepOutcome × AgentRunner S
  settle t input prev step committed (failed m) r = (stopped (failed_tool m), r)
  settle t input prev step committed (answered observation) r =
      let total =
        saturating_add r.total_tokens (saturating_add input (output_tokens committed.usage)) in
      conclude (over r.config.max_tokens total) t prev step committed observation
        (record r { total_tokens = total })

  abbrev pub run_tool :
      Option ℕ
      → World
      → ℕ
      → ℕ
      → Json
      → AgentStep
      → CommittedTransition
      → AgentRunner S
      → Stepped StepOutcome × AgentRunner S
  run_tool (some max) w t input prev step committed r =
      (stopped (budget_would_exceed max (predicted r.total_tokens input)), r)
  run_tool none w t input prev step committed r =
      settle t input prev step committed (w.execute committed.action) r

  -- The state is committed: the token and the ceiling are looked at before the tool runs.
  abbrev pub act :
      World
      → ℕ
      → ℕ
      → Json
      → AgentStep
      → CommittedTransition
      → AgentRunner S
      → Stepped StepOutcome × AgentRunner S
  act w t input prev step committed r =
      if w.is_cancelled_before_tool
      then (
        stopped cancelled_before_tool,
        record r { log = push (entry_of t prev step committed cancelled_observation) r.log },
      )
      else run_tool (over r.config.max_tokens (predicted r.total_tokens input)) w t input prev step
          committed r

  abbrev pub after_commit :
      World
      → ℕ
      → ℕ
      → Json
      → AgentStep
      → Result CommittedTransition
      → AgentRunner S
      → Stepped StepOutcome × AgentRunner S
  after_commit w t input prev step (err e) r = (stopped (refused_patch e), r)
  after_commit w t input prev step (ok committed) r = act w t input prev step committed r

  abbrev pub propose :
      World → ℕ → ℕ → Answer AgentStep → AgentRunner S → Stepped StepOutcome × AgentRunner S
  propose w t input (failed m) r = (stopped (failed_llm m), r)
  propose w t input (answered step) r =
      if w.is_cancelled_before_commit
      then (stopped cancelled_before_commit, r)
      else let transition = apply_transition r.store step in
        after_commit w t input (s.load r.store) step transition.0
          (record r { store = transition.1 })

  module _ (to_string : Json → Option Text) where
    unfoldable pub step : World → Json → AgentRunner S → Stepped StepOutcome × AgentRunner S
    step w observation r =
        if w.is_cancelled
        then (stopped cancelled, r)
        else let t = length r.log.entries + 1 in
          if ltb r.config.max_steps t
          then (stopped (max_steps_exceeded r.config.max_steps), r)
          else let req =
              build_model_input to_string r.skill (s.load r.store) observation r.config.model in
            propose w t (tokens_for_request req) (w.complete req) r

    -- The token's answer at the head of a round and the world of its step are told by the rounds left.
    unfoldable pub rounds :
        ℕ
        → (ℕ → Bool)
        → (ℕ → World)
        → (Json → Json → Bool)
        → Json
        → AgentRunner S
        → Stepped Json × AgentRunner S
    rounds zero cancels world is_done observation r = (stopped max_steps_reached, r)
    rounds (suc n) cancels world is_done observation r =
        if cancels n
        then (stopped cancelled, r)
        else if is_done (s.load r.store) observation
        then (done (s.load r.store), r)
        else let next = step (world n) observation r in
          elim next.0 [
            | stopped e ↦ (stopped e, next.1)
            | done outcome ↦ rounds n cancels world is_done outcome.observation next.1
          ]

    unfoldable pub run_until :
        (ℕ → Bool)
        → (ℕ → World)
        → (Json → Json → Bool)
        → Json
        → AgentRunner S
        → Stepped Json × AgentRunner S
    run_until cancels world is_done observation r =
        rounds r.config.max_steps cancels world is_done observation r
