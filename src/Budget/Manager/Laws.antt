-- ===== src/Budget/Manager/Laws.antt =====
-- The contract of a quota manager, that both managers meet it, and where they differ.
use fusion_router.Prelude.{
  ℕ, ◌+◌, ◌≤◌, ◌<◌, ◌≡◌, ◌↔◌, refl, ap, ◌∙◌, true, List, [], ◌∷◌, arith, if◌then◌else◌,
}
use fusion_router.Prelude.Words.{IsU64, u64_max}
use fusion_router.Money.{NanoUsd}
use fusion_router.Budget.Manager.{
  Meter, Call, reserve, give_back, usage, can_afford, serve, serve_all,
}
use fusion_router.Budget.Manager.Stub
use fusion_router.Budget.Manager.Default

-- Counters are u64 values.
pub record Fits (m : Meter) : Type 0 where
  pub cost_fits : IsU64 m.cost
  pub tokens_fit : IsU64 m.tokens

-- A ceiling of the largest u64 limits nothing, since the saturated sums never exceed it.
pub record Limited (m : Meter) : Type 0 where
  pub cost_limited : m.quota.max_daily_cost.nanos < u64_max
  pub tokens_limited : m.quota.max_daily_tokens < u64_max

pub record Within (m : Meter) : Type 0 where
  pub cost_within : m.cost ≤ m.quota.max_daily_cost.nanos
  pub tokens_within : m.tokens ≤ m.quota.max_daily_tokens

abbrev pub NoUsage : List Call → Type 0
NoUsage [] = Unit {0}
NoUsage (reserve _ _ ∷ calls) = NoUsage calls
NoUsage (give_back _ _ ∷ calls) = NoUsage calls
NoUsage (usage _ _ ∷ calls) = ⊥

-- Below ceilings that limit, a reservation succeeds exactly when the exact sums fit the quota, and
-- exactly when `can_afford` says so in the same state; it then adds exactly the estimate, and a refusal
-- changes nothing.
pub try_apply_lem :
    (m : Meter) (cost : NanoUsd) (tokens : ℕ)
    → Limited m
    → (((Default.try_apply m cost.nanos tokens).1 ≡ true) ↔ (
        (m.cost + cost.nanos ≤ m.quota.max_daily_cost.nanos)
        × (m.tokens + tokens ≤ m.quota.max_daily_tokens)))
      × ((Default.try_apply m cost.nanos tokens).1 ≡ can_afford m cost tokens)
      × ((Default.try_apply m cost.nanos tokens).0 ≡ (
          if (Default.try_apply m cost.nanos tokens).1
          then record m { cost = m.cost + cost.nanos; tokens = m.tokens + tokens }
          else m))
unfolding Default.try_apply can_afford
try_apply_lem m cost tokens f = ((λ h. ground arith, λ h. ground arith), ground arith, ground arith)

-- The double reserves as the default manager does.
try_reserve-eq-try_apply :
    (m : Meter) (cost : NanoUsd) (tokens : ℕ)
    → Stub.try_reserve m cost tokens ≡ Default.try_apply m cost.nanos tokens
unfolding Stub.try_reserve Default.try_apply
try_reserve-eq-try_apply m cost tokens = refl

release-eq-subtract :
    (m : Meter) (cost : NanoUsd) (tokens : ℕ)
    → Fits m
    → Stub.release m cost tokens ≡ Default.subtract m cost.nanos tokens
unfolding Stub.release Default.subtract
release-eq-subtract m cost tokens f = ground arith

serve-Fits : (m : Meter) (c : Call) → Fits m → Fits (serve Default.manager m c)
unfolding serve Default.try_apply Default.subtract Default.add_usage
serve-Fits m (reserve cost tokens) f = ground arith
serve-Fits m (give_back cost tokens) f = ground arith
serve-Fits m (usage cost tokens) f = ground arith

serve-Within :
    (m : Meter) (c : Call) → NoUsage (c ∷ []) → Within m → Within (serve Default.manager m c)
unfolding serve Default.try_apply Default.subtract
serve-Within m (reserve cost tokens) n w = ground arith
serve-Within m (give_back cost tokens) n w = ground arith
serve-Within m (usage cost tokens) n w = absurd n

-- Over any history of reservations and releases the default manager stays within its quota.
pub serve_all-Within :
    (m : Meter) (calls : List Call)
    → NoUsage calls
    → Within m
    → Within (serve_all Default.manager m calls)
unfolding serve_all
serve_all-Within m [] n w = w
serve_all-Within m (reserve c t ∷ calls) n w =
    serve_all-Within (serve Default.manager m (reserve c t)) calls n
      (serve-Within m (reserve c t) tt w)
serve_all-Within m (give_back c t ∷ calls) n w =
    serve_all-Within (serve Default.manager m (give_back c t)) calls n
      (serve-Within m (give_back c t) tt w)
serve_all-Within m (usage c t ∷ calls) n w = absurd n

serve_agrees :
    (m : Meter) (c : Call)
    → NoUsage (c ∷ [])
    → Fits m
    → serve Stub.manager m c ≡ serve Default.manager m c
unfolding serve
serve_agrees m (reserve cost tokens) n f = ap (λ r. r.0) (try_reserve-eq-try_apply m cost tokens)
serve_agrees m (give_back cost tokens) n f = release-eq-subtract m cost tokens f
serve_agrees m (usage cost tokens) n f = absurd n

NoUsage-cons :
    (c : Call) (calls : List Call) → NoUsage (c ∷ calls) → NoUsage (c ∷ []) × NoUsage calls
NoUsage-cons (reserve _ _) calls n = (tt, n)
NoUsage-cons (give_back _ _) calls n = (tt, n)
NoUsage-cons (usage _ _) calls n = absurd n

-- Called one at a time, the double and the default manager go through the same states, as long as no
-- measured usage is recorded.
pub managers_agree :
    (m : Meter) (calls : List Call)
    → NoUsage calls
    → Fits m
    → serve_all Stub.manager m calls ≡ serve_all Default.manager m calls
unfolding serve_all
managers_agree m [] n f = refl
managers_agree m (c ∷ calls) n f =
    let (here, later) = NoUsage-cons c calls n in
    ap (λ s. serve_all Stub.manager s calls) (serve_agrees m c here f)
    ∙ managers_agree (serve Default.manager m c) calls later (serve-Fits m c f)

-- Where they differ: usage beyond u64 pins the default manager's counter, and wraps the double's
-- below what it was.
pub usage_overflow :
    (m : Meter) (cost : NanoUsd) (tokens : ℕ)
    → Fits m
    → IsU64 cost.nanos
    → u64_max < m.cost + cost.nanos
    → ((serve Default.manager m (usage cost tokens)).cost ≡ u64_max)
      × ((serve Stub.manager m (usage cost tokens)).cost < m.cost)
unfolding serve Default.add_usage Stub.record_usage
usage_overflow m cost tokens f hc over = (ground arith, ground arith)
