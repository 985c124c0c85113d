-- ===== src/Agent/Runner/Logged.antt =====
-- What the log of crates/fusion-agent-state/src/runner.rs says of the state, over any store whose
-- commits are merges.
use fusion_router.Prelude.{
  ℕ, zero, suc, ◌+◌, ◌≡◌, refl, sym, ap, ◌∙◌, Bool, true, Option, arith, Text, ltb, length, if-both,
}
use fusion_router.Json.{Json}
use fusion_router.Agent.Store.{SkillSpec, StateStore}
use fusion_router.Agent.Store.Laws.{Commits}
use fusion_router.Agent.Runner.{
  RunnerConfig, StepError, Stepped, done, stopped, World, AgentRunner, new,
}
use fusion_router.Agent.Runner.Steps.{step, rounds, run_until}
use fusion_router.Agent.Runner.Stages.{is_logged, IsConsistent, Keeps, propose-Keeps}

-- What holds of both branches of a match holds of the match.
Stepped-both {ℓ κ μ} :
    {A : Type ℓ} {B : Type κ} (P : A → Type μ) (x : Stepped B) {f : StepError → A} {g : B → A}
    → ((e : StepError) → x ≡ stopped e → P (f e))
    → ((b : B) → x ≡ done b → P (g b))
    → P (elim x [ stopped e ↦ f e | done b ↦ g b ])
Stepped-both P (stopped e) t h = t e refl
Stepped-both P (done b) t h = h b refl

module _ {ℓ} {S : Type ℓ} ⦃s : StateStore S⦄ where
  -- A run has ended well: its log tells how its state came about, and that state is done.
  pub record HasFinished (initial : Json) (is_done : Json → Json → Bool) (v : Json)
      (r : AgentRunner S) : Type ℓ where
    pub logged : IsConsistent initial r
    pub current : s.load r.store ≡ v
    pub observation : Json
    pub accepted : is_done v observation ≡ true

  abbrev Finishes : Json → (Json → Json → Bool) → Stepped Json × AgentRunner S → Type ℓ
  Finishes initial is_done q = (v : Json) → q.0 ≡ done v → HasFinished initial is_done v q.1

module _ {ℓ} {S : Type ℓ} ⦃s : StateStore S⦄ (laws : Commits S)
    (to_string : Json → Option Text) where
  -- A step keeps the log in agreement with the state, unless it ends after its commit because the
  -- tool failed or a token ceiling was passed: the entries follow each other from the initial state
  -- to the present one, each by the merge of its patch, are numbered from 1, and are no more than
  -- the steps allowed.
  pub step-IsConsistent :
      (initial : Json) (w : World) (observation : Json) (r : AgentRunner S)
      → IsConsistent initial r
      → is_logged (step to_string w observation r).0 ≡ true
      → IsConsistent initial (step to_string w observation r).1
  unfolding step
  step-IsConsistent initial w observation r h =
      if-both (Keeps initial) w.is_cancelled (λ _ _. h)
        (λ _.
          if-both (Keeps initial) (ltb r.config.max_steps (length r.log.entries + 1)) (λ _ _. h)
            (λ room. propose-Keeps laws initial w r _ _ _ h refl (ground (arith, room))))

  rounds-Finishes :
      (initial : Json) (n : ℕ) (cancels : ℕ → Bool) (world : ℕ → World)
      (is_done : Json → Json → Bool) (observation : Json) (r : AgentRunner S)
      → IsConsistent initial r
      → Finishes initial is_done (rounds to_string n cancels world is_done observation r)
  unfolding rounds
  rounds-Finishes initial zero cancels world is_done observation r h v e = absurd (cc e)
  rounds-Finishes initial (suc n) cancels world is_done observation r h v e =
      if-both (Finishes initial is_done) (cancels n) (λ _ _ f. absurd (cc f))
        (λ _.
          if-both (Finishes initial is_done) (is_done (s.load r.store) observation)
            (λ finished _ f. record {
              logged = h;
              current = cc f;
              observation = observation;
              accepted = ap (λ x. is_done x observation) (sym (cc f)) ∙ finished;
            })
            (λ _.
              let next = step to_string (world n) observation r in
              Stepped-both (Finishes initial is_done) next.0 (λ _ _ _ f. absurd (cc f))
                (λ outcome well.
                  rounds-Finishes initial n cancels world is_done outcome.observation next.1
                    (step-IsConsistent initial (world n) observation r h (ap is_logged well)))))
        v e

  -- A run of a new runner that returns a state has logged every commit on the way to it, in order,
  -- from the store's initial state to the returned one, which is the store's and which `is_done`
  -- accepted; and it took no more steps than it may.
  pub run_until_lem :
      (skill : SkillSpec) (store : S) (config : RunnerConfig) (cancels : ℕ → Bool)
      (world : ℕ → World) (is_done : Json → Json → Bool) (observation v : Json)
      → (run_until to_string cancels world is_done observation (new skill store config)).0 ≡ done v
      → HasFinished
          (s.load store)
          is_done
          v
          (run_until to_string cancels world is_done observation (new skill store config)).1
  unfolding run_until
  run_until_lem skill store config cancels world is_done observation v e =
      rounds-Finishes (s.load store) config.max_steps cancels world is_done observation
        (new skill store config)
        (record { follows = refl; numbered = tt; within = omega arith; unbounded = refl }) v e
