-- ===== src/Money.antt =====
-- NanoUSD amounts: crates/fusion-core/src/monetary.rs. The conversion from floats
-- (`checked_from_f64_usd`) and the serde visitor are not modelled; decimal text is in `Decimal`.
pub mod Decimal
use fusion_router.Prelude.{ℕ, ◌*◌, ◌/◌, Option, none, some}
use fusion_router.Prelude.Words.{
  checked_add, checked_sub, checked_mul, saturating_add, saturating_sub, saturating_mul,
}

pub record NanoUsd : Type 0 where
  pub nanos : ℕ

unfoldable pub from_nanos : ℕ → NanoUsd
from_nanos n = record { nanos = n }

abbrev pub zero_usd : NanoUsd
zero_usd = record { nanos = 0 }

abbrev pub lift : Option ℕ → Option NanoUsd
lift none = none
lift (some n) = some (record { nanos = n })

unfoldable pub from_micros : ℕ → Option NanoUsd
from_micros micros = lift (checked_mul micros 1_000)

unfoldable pub as_micros : NanoUsd → ℕ
as_micros a = a.nanos / 1_000

unfoldable pub checked_add_usd : NanoUsd → NanoUsd → Option NanoUsd
checked_add_usd a b = lift (checked_add a.nanos b.nanos)

unfoldable pub saturating_add_usd : NanoUsd → NanoUsd → NanoUsd
saturating_add_usd a b = record { nanos = saturating_add a.nanos b.nanos }

unfoldable pub checked_sub_usd : NanoUsd → NanoUsd → Option NanoUsd
checked_sub_usd a b = lift (checked_sub a.nanos b.nanos)

unfoldable pub saturating_sub_usd : NanoUsd → NanoUsd → NanoUsd
saturating_sub_usd a b = record { nanos = saturating_sub a.nanos b.nanos }

unfoldable pub checked_mul_usd : NanoUsd → ℕ → Option NanoUsd
checked_mul_usd a k = lift (checked_mul a.nanos k)

unfoldable pub saturating_mul_usd : NanoUsd → ℕ → NanoUsd
saturating_mul_usd a k = record { nanos = saturating_mul a.nanos k }
