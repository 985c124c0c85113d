-- ===== src/Budget/Manager/Default.antt =====
-- `DefaultResourceManager` of src/resource/mod.rs, and what the kernel's trait makes of it.
use fusion_router.Prelude.{ℕ, Bool, true, false, ◌||◌, ltb, if◌then◌else◌}
use fusion_router.Prelude.Words.{saturating_add, saturating_sub}
use fusion_router.Budget.Manager.{Meter, ResourceManager, can_afford, spent_cost}
use fusion_router.Budget.Manager.Adapter.{HostManager, kernel_manager}

unfoldable pub try_apply : Meter → ℕ → ℕ → Meter × Bool
try_apply m cost tokens =
    let new_cost = saturating_add m.cost cost in
    let new_tokens = saturating_add m.tokens tokens in
    if ltb m.quota.max_daily_cost.nanos new_cost || ltb m.quota.max_daily_tokens new_tokens
    then (m, false)
    else (record m { cost = new_cost; tokens = new_tokens }, true)

unfoldable pub add_usage : Meter → ℕ → ℕ → Meter
add_usage m cost tokens = record m {
  cost = saturating_add m.cost cost;
  tokens = saturating_add m.tokens tokens;
}

unfoldable pub subtract : Meter → ℕ → ℕ → Meter
subtract m cost tokens = record m {
  cost = saturating_sub m.cost cost;
  tokens = saturating_sub m.tokens tokens;
}

abbrev pub host_manager : HostManager
host_manager = record {
  State = Meter;
  can_afford = λ m graph. can_afford m graph.estimated_cost graph.estimated_tokens;
  try_reserve = λ m graph. try_apply m graph.estimated_cost.nanos graph.estimated_tokens;
  release = λ m graph. subtract m graph.estimated_cost.nanos graph.estimated_tokens;
  record_usage = λ m cost tokens. add_usage m cost.nanos tokens;
  quota = λ m. m.quota;
  spent_cost = spent_cost;
  spent_tokens = λ m. m.tokens;
}

-- What the compiler is given: the default manager behind the bridge.
abbrev pub manager : ResourceManager
manager = kernel_manager host_manager
