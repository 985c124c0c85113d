-- ===== src/Budget/Envelope/Laws.antt =====
-- What the envelope guarantees.
use fusion_router.Prelude.{
  ℕ, zero, suc, ◌+◌, ◌≤◌, ◌<◌, ◌≡◌, ◌↔◌, ◌≢◌, min, List, [], ◌∷◌, arith, ltb, leb, if◌then◌else◌,
  Bool-cases, inl, inr,
}
use fusion_router.Prelude.Words.{IsU64, u64_max, saturate}
use fusion_router.Money.{NanoUsd}
use fusion_router.Budget.Envelope.{
  Envelope, ok, err, iterations_exceeded, commit, record_and_check, reconcile_refund,
  increment_iteration, record_all, increments,
}

abbrev pub cost_sum : List (NanoUsd × ℕ) → ℕ
cost_sum [] = 0
cost_sum ((cost, tokens) ∷ calls) = cost.nanos + cost_sum calls

abbrev pub token_sum : List (NanoUsd × ℕ) → ℕ
token_sum [] = 0
token_sum ((cost, tokens) ∷ calls) = tokens + token_sum calls

-- With ceilings that fit u64, a record succeeds exactly when the exact new totals of both counters
-- are within their ceilings; saturation never hides an excess.
pub record_and_check_decides :
    (e : Envelope) (cost : NanoUsd) (tokens : ℕ)
    → IsU64 e.max_cost.nanos
    → IsU64 e.max_tokens
    → ((record_and_check e cost tokens).1 ≡ ok tt)
      ↔ ((e.spent_cost + cost.nanos ≤ e.max_cost.nanos) × (e.spent_tokens + tokens ≤ e.max_tokens))
unfolding record_and_check
record_and_check_decides e cost tokens hc ht = (λ h. ground arith, λ h. ground arith)

-- The counters after any sequence of records, refused ones included, are the exact totals, cut off
-- at the largest u64: real spend is never rolled back.
pub record_all_totals :
    (e : Envelope) (calls : List (NanoUsd × ℕ))
    → IsU64 e.spent_cost
    → IsU64 e.spent_tokens
    → ((record_all e calls).spent_cost ≡ saturate (e.spent_cost + cost_sum calls))
      × ((record_all e calls).spent_tokens ≡ saturate (e.spent_tokens + token_sum calls))
unfolding record_all record_and_check
record_all_totals e [] hc ht = (ground arith, ground arith)
record_all_totals e ((cost, tokens) ∷ calls) hc ht =
    let (c, t) = record_all_totals (commit e cost tokens) calls (ground arith) (ground arith) in
    (ground arith, ground arith)

-- Below the largest u64 a ceiling latches: once a record is refused, the next one is refused too, if
-- nothing is refunded in between.
pub refusal_is_final :
    (e : Envelope) (cost later : NanoUsd) (tokens more : ℕ)
    → e.max_cost.nanos < u64_max
    → e.max_tokens < u64_max
    → (record_and_check e cost tokens).1 ≢ ok tt
    → (record_and_check (record_and_check e cost tokens).0 later more).1 ≢ ok tt
unfolding record_and_check
refusal_is_final e cost later tokens more hc ht refused = ground arith

-- A refund of what was just recorded restores both counters, also after a refusal, unless a counter
-- had saturated.
pub refund-record :
    (e : Envelope) (cost : NanoUsd) (tokens : ℕ)
    → IsU64 (e.spent_cost + cost.nanos)
    → IsU64 (e.spent_tokens + tokens)
    → reconcile_refund (record_and_check e cost tokens).0 cost tokens ≡ e
unfolding reconcile_refund record_and_check
refund-record e cost tokens hc ht = ground arith

-- However often the loop asks, the count stops at the limit, and the next request succeeds with the
-- next number exactly while the number of requests so far is below the limit.
pub increments_bounded :
    (n : ℕ) (e : Envelope)
    → e.current_iterations ≤ e.max_iterations
    → ((increments n e).current_iterations ≡ min (e.current_iterations + n) e.max_iterations)
      × ((increment_iteration (increments n e)).1 ≡ (
          if ltb (e.current_iterations + n) e.max_iterations
          then ok (e.current_iterations + n + 1)
          else err (iterations_exceeded (e.max_iterations + 1) e.max_iterations)))
unfolding increments increment_iteration
increments_bounded zero e h = (ground arith, ground arith)
increments_bounded (suc n) e h = elim (Bool-cases (leb e.max_iterations e.current_iterations)) [
  | inl full ↦ rw full (let (count, next) = increments_bounded n e h in ground arith)
  | inr room ↦ rw room (
      let (count, next) =
        increments_bounded n (record e { current_iterations = e.current_iterations + 1 })
          (ground arith) in
      ground arith)
]
