-- ===== src/Prelude/Words.antt =====
-- Rust's arithmetic on u64: a value is a plain number below 2 ^ 64, and every operation writes out
-- what happens at the bound.
use Prim.Native.Nat.{ℕ, ◌+◌, ◌-◌, ◌*◌, ◌%◌, ◌^◌, ◌≤◌}
use mathlib.Core.Option.{Option, none, some}
use fusion_router.Prelude.Tests.{ltb, leb, if◌then◌else◌}

abbrev pub u64_max : ℕ
u64_max = 2 ^ 64 - 1

abbrev pub IsU64 : ℕ → Type 0
IsU64 n = n ≤ u64_max

abbrev pub checked : ℕ → Option ℕ
checked n = if leb n u64_max then some n else none

abbrev pub saturate : ℕ → ℕ
saturate n = if leb n u64_max then n else u64_max

abbrev pub checked_add : ℕ → ℕ → Option ℕ
checked_add a b = checked (a + b)

abbrev pub saturating_add : ℕ → ℕ → ℕ
saturating_add a b = saturate (a + b)

-- `fetch_add` of an atomic wraps around.
abbrev pub wrapping_add : ℕ → ℕ → ℕ
wrapping_add a b = (a + b) % 2 ^ 64

abbrev pub checked_sub : ℕ → ℕ → Option ℕ
checked_sub a b = if ltb a b then none else some (a - b)

abbrev pub saturating_sub : ℕ → ℕ → ℕ
saturating_sub a b = a - b

-- `fetch_sub` of an atomic wraps around.
abbrev pub wrapping_sub : ℕ → ℕ → ℕ
wrapping_sub a b = (a + 2 ^ 64 - b) % 2 ^ 64

abbrev pub checked_mul : ℕ → ℕ → Option ℕ
checked_mul a b = checked (a * b)

abbrev pub saturating_mul : ℕ → ℕ → ℕ
saturating_mul a b = saturate (a * b)
