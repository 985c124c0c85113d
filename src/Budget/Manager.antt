-- ===== src/Budget/Manager.antt =====
-- Quota managers: the trait and the test double of crates/fusion-kernel/src/resource/mod.rs, and the
-- host's `DefaultResourceManager` of src/resource/mod.rs. Under its lock an operation is one step;
-- `Race` models what the double does outside its lock.
pub mod Stub
pub mod Adapter
pub mod Default
pub mod Laws
pub mod Race
use fusion_router.Prelude.{
  ℕ, ◌+◌, ◌-◌, ◌≤◌, ◌≡◌, Bool, true, false, ◌&&◌, ◌||◌, List, [], ◌∷◌, min, ltb, leb, if◌then◌else◌,
}
use fusion_router.Prelude.Words.{saturating_add, saturating_sub, wrapping_add, wrapping_sub}
use fusion_router.Money.{NanoUsd}

pub record Quota : Type 0 where
  pub max_daily_cost : NanoUsd
  pub max_daily_tokens : ℕ

-- The fields of either manager, less the lock.
pub record Meter : Type 0 where
  pub quota : Quota
  pub cost : ℕ
  pub tokens : ℕ

unfoldable pub new : Quota → Meter
new quota = record { quota = quota; cost = 0; tokens = 0 }

-- The trait: what the compiler and the executor ask of a manager.
pub record ResourceManager : Type 1 where
  pub State : Type 0
  pub can_afford : State → NanoUsd → ℕ → Bool
  pub try_reserve : State → NanoUsd → ℕ → State × Bool
  pub release : State → NanoUsd → ℕ → State
  pub record_usage : State → NanoUsd → ℕ → State
  pub quota : State → Quota
  pub spent_cost : State → NanoUsd
  pub spent_tokens : State → ℕ

-- The reads that both managers share.
unfoldable pub can_afford : Meter → NanoUsd → ℕ → Bool
can_afford m cost tokens =
    leb (saturating_add m.cost cost.nanos) m.quota.max_daily_cost.nanos
    && leb (saturating_add m.tokens tokens) m.quota.max_daily_tokens

unfoldable pub spent_cost : Meter → NanoUsd
spent_cost m = record { nanos = m.cost }

-- The calls that clients make, in the order in which the manager serves them.
pub data Call : Type 0 where
  reserve : NanoUsd → ℕ → Call
  give_back : NanoUsd → ℕ → Call
  usage : NanoUsd → ℕ → Call

module _ (m : ResourceManager) where
  unfoldable pub serve : m.State → Call → m.State
  serve s (reserve cost tokens) = (m.try_reserve s cost tokens).0
  serve s (give_back cost tokens) = m.release s cost tokens
  serve s (usage cost tokens) = m.record_usage s cost tokens

  unfoldable pub serve_all : m.State → List Call → m.State
  serve_all s [] = s
  serve_all s (c ∷ calls) = serve_all (serve s c) calls
