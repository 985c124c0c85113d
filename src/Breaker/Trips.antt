-- ===== src/Breaker/Trips.antt =====
-- When the circuit opens, and that it can always recover.
use fusion_router.Prelude.{
  ℕ, zero, suc, ◌+◌, ◌*◌, ◌^◌, ◌<◌, ◌≡◌, refl, ap, ◌∙◌, Bool, true, false, List, [], ◌∷◌, none,
  some, arith, ◌⊎◌, inl, inr, Option-cases,
}
use fusion_router.Breaker.Runs.{
  Report, success, failure, Leading, enough, one_more, HasRun, starts, later, Leading-le,
  Leading-tail, not-Leading-none, not-Leading-success, not-HasRun-none, HasRun-success,
  HasRun-failure,
}
use fusion_router.Breaker.{
  closed, opened, CircuitBreaker, Event, asks, succeeds, fails_at, reconfigures, resets, new,
  can_execute, record_success, record_failure, update_thresholds, reset, handle, handle_all,
}

abbrev pub report : CircuitBreaker → Report → CircuitBreaker
report b success = record_success b
report b (failure now) = record_failure b now

abbrev pub report_all : CircuitBreaker → List Report → CircuitBreaker
report_all b [] = b
report_all b (r ∷ reports) = report_all (report b r) reports

-- An open circuit ignores reports.
report-opened : (b : CircuitBreaker) (r : Report) → b.state ≡ opened → report b r ≡ b
unfolding record_failure record_success
report-opened b success h = ground arith
report-opened b (failure now) h = ground arith

report_all-opened :
    (b : CircuitBreaker) (reports : List Report) → b.state ≡ opened → report_all b reports ≡ b
report_all-opened b [] h = refl
report_all-opened b (r ∷ reports) h = rw (report-opened b r h) (report_all-opened b reports h)

-- A closed circuit that is so many failures short of its threshold.
record Short (limit missing : ℕ) (b : CircuitBreaker) : Type 0 where
  is_closed : b.state ≡ closed
  threshold : b.failure_threshold ≡ limit
  counted : b.failure_count + missing ≡ limit

success-Short :
    (limit missing : ℕ) (b : CircuitBreaker)
    → Short limit missing b
    → Short limit limit (record_success b)
unfolding record_success
success-Short limit missing b h =
    let c = h.is_closed in
    let t = h.threshold in
    record { is_closed = ground arith; threshold = ground arith; counted = ground arith }

failure-Short :
    (limit missing now : ℕ) (b : CircuitBreaker)
    → limit < 2 ^ 32
    → Short limit (suc (suc missing)) b
    → Short limit (suc missing) (record_failure b now)
unfolding record_failure
failure-Short limit missing now b w h =
    let c = h.is_closed in
    let t = h.threshold in
    let n = h.counted in
    record { is_closed = ground arith; threshold = ground arith; counted = ground arith }

last_failure :
    (limit now : ℕ) (b : CircuitBreaker)
    → limit < 2 ^ 32
    → Short limit 1 b
    → (record_failure b now).state ≡ opened
unfolding record_failure
last_failure limit now b w h =
    let c = h.is_closed in let t = h.threshold in let n = h.counted in ground arith

abbrev Decided : ℕ → ℕ → CircuitBreaker → List Report → Type 0
Decided limit missing b reports =
    (((report_all b reports).state ≡ opened) × (Leading missing reports ⊎ HasRun limit reports))
    ⊎ (((report_all b reports).state ≡ closed)
        × (Leading missing reports → ⊥)
        × (HasRun limit reports → ⊥))

Short-Decided :
    (limit missing : ℕ) (b : CircuitBreaker) (reports : List Report)
    → suc limit < 2 ^ 32
    → Short (suc limit) (suc missing) b
    → Decided (suc limit) (suc missing) b reports
Short-Decided limit missing b [] w h =
    inr (h.is_closed, not-Leading-none missing, not-HasRun-none limit)
Short-Decided limit missing b (success ∷ reports) w h =
    elim (Short-Decided limit limit (record_success b) reports w
      (success-Short (suc limit) (suc missing) b h)) [
        | inl (state, inl l) ↦ inl (state, inr (later (starts l)))
        | inl (state, inr r) ↦ inl (state, inr (later r))
        | inr (state, _, no_run) ↦ inr (
          state,
          not-Leading-success missing reports,
          λ r. no_run (HasRun-success limit reports r),
        )
      ]
Short-Decided limit zero b (failure now ∷ reports) w h = inl (
  ap (λ x. x.state)
        (report_all-opened (record_failure b now) reports (last_failure (suc limit) now b w h))
      ∙ last_failure (suc limit) now b w h,
  inl (one_more enough),
)
Short-Decided limit (suc missing) b (failure now ∷ reports) w h =
    let counted = h.counted in
    elim (Short-Decided limit missing (record_failure b now) reports w
      (failure-Short (suc limit) missing now b w h)) [
        | inl (state, inl l) ↦ inl (state, inl (one_more l))
        | inl (state, inr r) ↦ inl (state, inr (later r))
        | inr (state, no_lead, no_run) ↦ inr (
          state,
          λ l. no_lead (Leading-tail (suc missing) now reports l),
          λ r. elim (HasRun-failure limit now reports r) [
            | inl l ↦ no_lead (Leading-le (suc missing) limit reports l (omega arith))
            | inr rest ↦ no_run rest
          ],
        )
      ]

new-Short : (limit successes cooldown : ℕ) → Short limit limit (new limit successes cooldown)
unfolding new
new-Short limit successes cooldown = record {
  is_closed = refl;
  threshold = refl;
  counted = ground arith;
}

-- After any successes and failures that are reported to a new breaker, whose failure threshold is
-- positive and fits u32, its circuit is open if somewhere in the reports as many failures as the
-- threshold stand in a row, with no success between them, and closed if not.
pub opens_after_run :
    (threshold successes cooldown : ℕ) (reports : List Report)
    → 0 < threshold
    → threshold < 2 ^ 32
    → (((report_all (new threshold successes cooldown) reports).state ≡ opened)
        × HasRun threshold reports)
      ⊎ (((report_all (new threshold successes cooldown) reports).state ≡ closed)
          × (HasRun threshold reports → ⊥))
opens_after_run zero successes cooldown reports p w = absurd (omega arith)
opens_after_run (suc limit) successes cooldown reports p w =
    elim (Short-Decided limit limit (new (suc limit) successes cooldown) reports w
      (new-Short (suc limit) successes cooldown)) [
        | inl (state, inl l) ↦ inl (state, starts l)
        | inl (state, inr r) ↦ inl (state, r)
        | inr (state, _, no_run) ↦ inr (state, no_run)
      ]

-- An open circuit knows when it last failed.
abbrev dated : CircuitBreaker → Bool
dated b = elim b.state [
  | opened ↦ elim b.last_failure_time [ none ↦ false | some _ ↦ true ]
  | _ ↦ true
]

handle-dated : (b : CircuitBreaker) (e : Event) → dated b ≡ true → dated (handle b e) ≡ true
unfolding handle can_execute record_success record_failure update_thresholds reset
handle-dated b (asks now) h = ground arith
handle-dated b succeeds h = ground arith
handle-dated b (fails_at now) h = ground arith
handle-dated b (reconfigures f c) h = h
handle-dated b resets h = refl

handle_all-dated :
    (b : CircuitBreaker) (events : List Event) → dated b ≡ true → dated (handle_all b events) ≡ true
unfolding handle_all
handle_all-dated b [] h = h
handle_all-dated b (e ∷ events) h = handle_all-dated (handle b e) events (handle-dated b e h)

-- What recovery means: from some time on, each request is let through as a probe.
abbrev pub Recovers : CircuitBreaker → Type 0
Recovers b =
    (last : ℕ) × ((wait : ℕ)
      → (can_execute b (last + b.cooldown_secs * 1_000_000_000 + wait)).1 ≡ true)

dated-Recovers : (b : CircuitBreaker) → dated b ≡ true → b.state ≡ opened → Recovers b
unfolding can_execute
dated-Recovers b d h = elim (Option-cases b.last_failure_time) [
  | inl never ↦ absurd (ground arith)
  | inr (last, e) ↦ (last, λ wait. ground arith)
]

-- Whatever happened to a breaker since it was made, if its circuit is open then a request made after
-- the cooldown from some point is let through.
pub open-Recovers :
    (failures successes cooldown : ℕ) (events : List Event)
    → (handle_all (new failures successes cooldown) events).state ≡ opened
    → Recovers (handle_all (new failures successes cooldown) events)
open-Recovers failures successes cooldown events h =
    dated-Recovers (handle_all (new failures successes cooldown) events)
      (handle_all-dated (new failures successes cooldown) events (unfold new in refl)) h
