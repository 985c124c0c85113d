-- ===== src/Budget/Manager/Stub.antt =====
-- `StubResourceManager` of crates/fusion-kernel/src/resource/mod.rs.
use fusion_router.Prelude.{ℕ, Bool, true, false, ◌||◌, min, ltb, if◌then◌else◌}
use fusion_router.Prelude.Words.{saturating_add, wrapping_add, wrapping_sub}
use fusion_router.Money.{NanoUsd}
use fusion_router.Budget.Manager.{Meter, ResourceManager, can_afford, spent_cost}

unfoldable pub try_reserve : Meter → NanoUsd → ℕ → Meter × Bool
try_reserve m cost tokens =
    if ltb m.quota.max_daily_cost.nanos (saturating_add m.cost cost.nanos)
      || ltb m.quota.max_daily_tokens (saturating_add m.tokens tokens)
    then (m, false)
    else (
      record m { cost = saturating_add m.cost cost.nanos; tokens = saturating_add m.tokens tokens },
      true,
    )

unfoldable pub release : Meter → NanoUsd → ℕ → Meter
release m cost tokens = record m {
  cost = wrapping_sub m.cost (min cost.nanos m.cost);
  tokens = wrapping_sub m.tokens (min tokens m.tokens);
}

unfoldable pub record_usage : Meter → NanoUsd → ℕ → Meter
record_usage m cost tokens = record m {
  cost = wrapping_add m.cost cost.nanos;
  tokens = wrapping_add m.tokens tokens;
}

abbrev pub manager : ResourceManager
manager = record {
  State = Meter;
  can_afford = can_afford;
  try_reserve = try_reserve;
  release = release;
  record_usage = record_usage;
  quota = λ m. m.quota;
  spent_cost = spent_cost;
  spent_tokens = λ m. m.tokens;
}
