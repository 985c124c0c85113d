-- ===== src/Budget/Manager/Adapter.antt =====
-- The host's manager trait of src/resource/mod.rs, which is asked about graphs, and the bridge from it
-- to the trait of the kernel: src/resource/kernel_adapter.rs. Of a graph a manager reads the estimates
-- of its metadata. The bridge copies the quota when it is made; a manager's quota never changes, so
-- here it is read when it is asked for.
use fusion_router.Prelude.{ℕ, Bool}
use fusion_router.Money.{NanoUsd}
use fusion_router.Budget.Manager.{Quota, ResourceManager}

pub record GraphMetadata : Type 0 where
  pub estimated_cost : NanoUsd
  pub estimated_tokens : ℕ

pub record HostManager : Type 1 where
  pub State : Type 0
  pub can_afford : State → GraphMetadata → Bool
  pub try_reserve : State → GraphMetadata → State × Bool
  pub release : State → GraphMetadata → State
  pub record_usage : State → NanoUsd → ℕ → State
  pub quota : State → Quota
  pub spent_cost : State → NanoUsd
  pub spent_tokens : State → ℕ

abbrev pub graph_for : NanoUsd → ℕ → GraphMetadata
graph_for cost tokens = record { estimated_cost = cost; estimated_tokens = tokens }

abbrev pub kernel_manager : HostManager → ResourceManager
kernel_manager inner = record {
  State = inner.State;
  can_afford = λ s cost tokens. inner.can_afford s (graph_for cost tokens);
  try_reserve = λ s cost tokens. inner.try_reserve s (graph_for cost tokens);
  release = λ s cost tokens. inner.release s (graph_for cost tokens);
  record_usage = λ s cost tokens. inner.record_usage s cost tokens;
  quota = λ s. inner.quota s;
  spent_cost = λ s. inner.spent_cost s;
  spent_tokens = λ s. inner.spent_tokens s;
}
