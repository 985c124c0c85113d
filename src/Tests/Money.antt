-- ===== src/Tests/Money.antt =====
-- Amounts: the theorems on decimal text at concrete inputs.
use fusion_router.Prelude.{◌≡◌, arith}
use fusion_router.Money.Decimal.{ok, checked_from_decimal_usd, to_decimal_usd}
use fusion_router.Money.Decimal.RoundTrip.{decimal_round_trip}

decimal_round_trip_example :
    checked_from_decimal_usd (to_decimal_usd (record { nanos = 12_345_678_900 }))
    ≡ ok (record { nanos = 12_345_678_900 })
decimal_round_trip_example = decimal_round_trip (record { nanos = 12_345_678_900 }) (omega arith)
