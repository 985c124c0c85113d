-- ===== src/Money/Decimal/Tests.antt =====
-- Decimal texts of crates/fusion-core/src/monetary.rs at concrete inputs.
use fusion_router.Prelude.{◌≡◌, refl, codes}
use fusion_router.Money.Decimal.{
  ok, err, precision, multiple_points, overflow, checked_from_decimal_usd, to_decimal_usd,
  is_whitespace, is_ascii_digit, byte_len, trim_start, trim_end, trim, split, digits, parse_u64,
  pad_right, fraction_nanos, total, dollars_of, from_parts, parse_parts, pad_left, display_fuel,
  display, cents_of, fraction_text,
}

decimal_tests :
    (checked_from_decimal_usd (codes " 12.345678901 ") ≡ ok (record { nanos = 12_345_678_901 }))
    × (checked_from_decimal_usd (codes "0.1234567890") ≡ err precision)
    × (checked_from_decimal_usd (codes "1.2.3") ≡ err multiple_points)
    × (checked_from_decimal_usd (codes "18446744074") ≡ err overflow)
    × (to_decimal_usd (record { nanos = 50_000_000 }) ≡ codes "0.05")
    × (to_decimal_usd (record { nanos = 3_000_000_000 }) ≡ codes "3.00")
    × (to_decimal_usd (record { nanos = 12_345_678_901 }) ≡ codes "12.345678901")
unfolding checked_from_decimal_usd to_decimal_usd is_whitespace is_ascii_digit byte_len trim_start
    trim_end trim split digits parse_u64 pad_right fraction_nanos total dollars_of from_parts
    parse_parts pad_left display_fuel display cents_of fraction_text
decimal_tests = (refl, refl, refl, refl, refl, refl, refl)
