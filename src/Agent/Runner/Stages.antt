-- ===== src/Agent/Runner/Stages.antt =====
-- How the stages of a step of crates/fusion-agent-state/src/runner.rs keep the log in agreement with
-- the state, over any store whose commits are merges.
use fusion_router.Prelude.{
  ℕ, suc, ◌+◌, ◌≤◌, ◌≡◌, refl, sym, subst, ◌∙◌, Bool, true, false, not, List, [], ◌∷◌, ◌++◌, Option,
  none, some, arith, length, length-append, if-both,
}
use fusion_router.Prelude.Words.{saturating_add}
use fusion_router.Json.{Json}
use fusion_router.Agent.Merge.{StateError, Result, ok, err, merge_state}
use fusion_router.Agent.Store.{
  StateStore, AgentStep, CommittedTransition, transition, apply_transition,
}
use fusion_router.Agent.Store.Laws.{Commits}
use fusion_router.Agent.Runner.{
  EventLogEntry, EventLog, push, StepError, budget_would_exceed, budget_exceeded, failed_tool,
  Answer, answered, failed, Stepped, done, stopped, World, AgentRunner, entry_of,
  cancelled_observation,
}
use fusion_router.Agent.Runner.Steps.{
  over, output_tokens, conclude, settle, run_tool, act, after_commit, propose,
}

-- Each entry takes up the state that the one before left, and its patch leads to its next state.
abbrev pub Follows : Json → List EventLogEntry → Json → Type 0
Follows state [] last = state ≡ last
Follows state (e ∷ entries) last =
    (e.prev_state ≡ state)
    × (merge_state state e.patch ≡ ok e.next_state)
    × Follows e.next_state entries last

abbrev pub Numbered : ℕ → List EventLogEntry → Type 0
Numbered n [] = Unit
Numbered n (e ∷ entries) = (e.step ≡ n) × Numbered (suc n) entries

Follows-snoc :
    (state last : Json) (entries : List EventLogEntry) (e : EventLogEntry)
    → Follows state entries last
    → e.prev_state ≡ last
    → merge_state last e.patch ≡ ok e.next_state
    → Follows state (entries ++ e ∷ []) e.next_state
Follows-snoc state last [] e h p m =
    (p ∙ sym h, subst (λ s. merge_state s e.patch ≡ ok e.next_state) (sym h) m, refl)
Follows-snoc state last (x ∷ entries) e h p m =
    (h.0, h.1, Follows-snoc x.next_state last entries e h.2 p m)

Numbered-snoc :
    (n : ℕ) (entries : List EventLogEntry) (e : EventLogEntry)
    → Numbered n entries
    → e.step ≡ n + length entries
    → Numbered n (entries ++ e ∷ [])
Numbered-snoc n [] e h s = (omega (arith, s), tt)
Numbered-snoc n (x ∷ entries) e h s = (h.0, Numbered-snoc (suc n) entries e h.1 (omega (arith, s)))

-- After these, a commit is not in the log.
abbrev pub is_lost : StepError → Bool
is_lost (failed_tool _) = true
is_lost (budget_would_exceed _ _) = true
is_lost (budget_exceeded _ _) = true
is_lost _ = false

abbrev pub is_logged {ℓ} : {A : Type ℓ} → Stepped A → Bool
is_logged (done _) = true
is_logged (stopped e) = not (is_lost e)

push-unbounded :
    (e : EventLogEntry) (log : EventLog)
    → log.max_entries ≡ none
    → (push e log).entries ≡ log.entries ++ e ∷ []
unfolding push
push-unbounded e log u = rw u refl

module _ {ℓ} {S : Type ℓ} ⦃s : StateStore S⦄ where
  -- The log tells how the state came about from the initial one.
  pub record IsConsistent (initial : Json) (r : AgentRunner S) : Type ℓ where
    pub follows : Follows initial r.log.entries (s.load r.store)
    pub numbered : Numbered 1 r.log.entries
    pub within : length r.log.entries ≤ r.config.max_steps
    pub unbounded : r.log.max_entries ≡ none

  -- The same between the commit of a step and its entry in the log.
  record IsPending (initial : Json) (r : AgentRunner S) (t : ℕ) (prev : Json) (p : AgentStep)
      (c : CommittedTransition) : Type ℓ where
    before : Follows initial r.log.entries prev
    commits : merge_state prev p.patch ≡ ok c.next_state
    now : s.load r.store ≡ c.next_state
    numbered : Numbered 1 r.log.entries
    turn : t ≡ length r.log.entries + 1
    room : t ≤ r.config.max_steps
    unbounded : r.log.max_entries ≡ none

  push-IsConsistent :
      (initial : Json) (r : AgentRunner S) (t : ℕ) (prev : Json) (p : AgentStep)
      (c : CommittedTransition) (observation : Json)
      → IsPending initial r t prev p c
      → IsConsistent initial (record r { log = push (entry_of t prev p c observation) r.log })
  unfolding push
  push-IsConsistent initial r t prev p c observation h =
      let e = entry_of t prev p c observation in
      let grown = push-unbounded e r.log h.unbounded in
      record {
        follows =
            subst (λ l. Follows initial (push e r.log).entries l) (sym h.now)
              (subst (λ es. Follows initial es c.next_state) (sym grown)
                (Follows-snoc initial prev r.log.entries e h.before refl h.commits));
        numbered =
            subst (Numbered 1) (sym grown)
              (Numbered-snoc 1 r.log.entries e h.numbered (omega (arith, h.turn)));
        within =
            subst (λ es. length es ≤ r.config.max_steps) (sym grown)
              (omega (arith, length-append r.log.entries (e ∷ []), h.turn, h.room));
        unbounded = h.unbounded;
      }

  -- What a step must do: unless it loses a commit, the log stays consistent.
  abbrev pub Keeps {κ} : {A : Type κ} → Json → Stepped A × AgentRunner S → Type ℓ
  Keeps initial q = is_logged q.0 ≡ true → IsConsistent initial q.1

  conclude-Keeps :
      (initial : Json) (o : Option ℕ) (r : AgentRunner S) (t : ℕ) (prev : Json) (p : AgentStep)
      (c : CommittedTransition) (observation : Json)
      → IsPending initial r t prev p c
      → Keeps initial (conclude o t prev p c observation r)
  conclude-Keeps initial (some max) r t prev p c observation h logged = absurd (cc logged)
  conclude-Keeps initial none r t prev p c observation h logged =
      push-IsConsistent initial r t prev p c observation h

  settle-Keeps :
      (initial : Json) (r : AgentRunner S) (t input : ℕ) (prev : Json) (p : AgentStep)
      (c : CommittedTransition) (a : Answer Json)
      → IsPending initial r t prev p c
      → Keeps initial (settle t input prev p c a r)
  settle-Keeps initial r t input prev p c (failed m) h logged = absurd (cc logged)
  settle-Keeps initial r t input prev p c (answered observation) h logged =
      let total = saturating_add r.total_tokens (saturating_add input (output_tokens c.usage)) in
      conclude-Keeps initial (over r.config.max_tokens total) (record r { total_tokens = total }) t
        prev p c observation
        (record {
          before = h.before;
          commits = h.commits;
          now = h.now;
          numbered = h.numbered;
          turn = h.turn;
          room = h.room;
          unbounded = h.unbounded;
        })
        logged

  run_tool-Keeps :
      (initial : Json) (o : Option ℕ) (w : World) (r : AgentRunner S) (t input : ℕ) (prev : Json)
      (p : AgentStep) (c : CommittedTransition)
      → IsPending initial r t prev p c
      → Keeps initial (run_tool o w t input prev p c r)
  run_tool-Keeps initial (some max) w r t input prev p c h logged = absurd (cc logged)
  run_tool-Keeps initial none w r t input prev p c h logged =
      settle-Keeps initial r t input prev p c (w.execute c.action) h logged

  act-Keeps :
      (initial : Json) (w : World) (r : AgentRunner S) (t input : ℕ) (prev : Json) (p : AgentStep)
      (c : CommittedTransition)
      → IsPending initial r t prev p c
      → Keeps initial (act w t input prev p c r)
  act-Keeps initial w r t input prev p c h =
      if-both (Keeps initial) w.is_cancelled_before_tool
        (λ _ _. push-IsConsistent initial r t prev p c cancelled_observation h)
        (λ _. run_tool-Keeps initial _ w r t input prev p c h)

  module _ (laws : Commits S) where
    -- A commit that fails leaves what the log tells.
    commit-Keeps :
        (initial : Json) (w : World) (r : AgentRunner S) (t input : ℕ) (p : AgentStep)
        (answer : Result Json) (store : S)
        → IsConsistent initial r
        → t ≡ length r.log.entries + 1
        → t ≤ r.config.max_steps
        → ((v : Json)
            → answer ≡ ok v
            → (merge_state (s.load r.store) p.patch ≡ ok v) × (s.load store ≡ v))
        → ((e : StateError) → answer ≡ err e → s.load store ≡ s.load r.store)
        → Keeps initial (
            after_commit w t input
              (s.load r.store)
              p
              (transition (s.load r.store) answer p)
              (record r { store = store }))
    commit-Keeps initial w r t input p (err e) store h turn room good bad logged = record {
      follows = subst (Follows initial r.log.entries) (sym (bad e refl)) h.follows;
      numbered = h.numbered;
      within = h.within;
      unbounded = h.unbounded;
    }
    commit-Keeps initial w r t input p (ok v) store h turn room good bad logged =
        act-Keeps initial w (record r { store = store }) t input (s.load r.store) p _
          (record {
            before = h.follows;
            commits = (good v refl).0;
            now = (good v refl).1;
            numbered = h.numbered;
            turn = turn;
            room = room;
            unbounded = h.unbounded;
          })
          logged

    pub propose-Keeps :
        (initial : Json) (w : World) (r : AgentRunner S) (t input : ℕ) (a : Answer AgentStep)
        → IsConsistent initial r
        → t ≡ length r.log.entries + 1
        → t ≤ r.config.max_steps
        → Keeps initial (propose w t input a r)
    unfolding apply_transition
    propose-Keeps initial w r t input (failed m) h turn room logged = h
    propose-Keeps initial w r t input (answered p) h turn room logged =
        if-both (Keeps initial) w.is_cancelled_before_commit (λ _ _. h)
          (λ _.
            commit-Keeps initial w r t input p (s.commit r.store p.patch).0
              (s.commit r.store p.patch).1 h turn room (laws.commit_ok r.store p.patch)
              (laws.commit_err r.store p.patch))
          logged
