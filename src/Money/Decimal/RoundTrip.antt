-- ===== src/Money/Decimal/RoundTrip.antt =====
-- Printing an amount and reading it back.
use fusion_router.Prelude.{
  ℕ, ◌+◌, ◌-◌, ◌/◌, ◌%◌, ◌^◌, ◌≤◌, ◌<◌, ◌≡◌, refl, sym, ap, subst, ◌∙◌, true, List, [], ◌∷◌, ◌++◌,
  some, arith, ltb, nat_beq, inl, inr, length, length-append, all, append_assoc, Bool-cases, Text,
}
use fusion_router.Prelude.Words.{IsU64}
use fusion_router.Money.{NanoUsd}
use fusion_router.Money.Decimal.{
  ok, is_ascii_digit, byte_len, trim, split, digits, parse_u64, zeros, pad_right, pad_left, display,
  fraction_nanos, total, dollars_of, from_parts, parse_parts, checked_from_decimal_usd, cents_of,
  fraction_text, to_decimal_usd,
}
use fusion_router.Money.Decimal.Texts.{
  IsDigits, all-append, zeros-IsDigits, length-zeros, zeros-add, byte_len-digits, trim_end-zeros,
  trim-plain, plain, plain_of_digits, split-point, display-IsDigits, length-display, display_cons,
  digits_of_display, parse_u64-digits, digits-zeros,
}

-- What `fraction_text` has to be: at most nine digits that stand for the nanos.
pub record IsFraction (n : ℕ) (s : Text) : Type 0 where
  pub digits_only : IsDigits s
  pub short : length s ≤ 9
  pub value : fraction_nanos s ≡ some n

parse_split :
    (s : Text) (c : ℕ) (r first : Text) (rest : List Text)
    → s ≡ c ∷ r
    → trim s ≡ s
    → split b'.' s ≡ (first, rest)
    → checked_from_decimal_usd s ≡ parse_parts first rest
unfolding checked_from_decimal_usd
parse_split s c r first rest shape trimmed pieces =
    rw (trimmed ∙ shape, checked_from_decimal_usd) (rw (← shape, pieces))

parse_display :
    (d n : ℕ) (frac : Text)
    → IsU64 d
    → IsFraction n frac
    → parse_parts (display d) (frac ∷ []) ≡ total d n
unfolding parse_parts from_parts dollars_of
parse_display d n frac h f =
    let (c, s, e) = display_cons d in
    let only : IsDigits (c ∷ s) = subst IsDigits e (display-IsDigits d) in
    let reads : parse_u64 (c ∷ s) ≡ some d =
      parse_u64-digits c s only ∙ ap (digits 0) (sym e) ∙ digits_of_display d h in
    rw (e, dollars_of)
      (ground (arith, reads, f.value, f.digits_only, f.short, byte_len-digits frac f.digits_only))

-- The text of an amount with such a fraction is read as the amount.
pub parse_amount :
    (d n : ℕ) (frac : Text)
    → IsU64 d
    → IsFraction n frac
    → checked_from_decimal_usd (display d ++ b'.' ∷ frac) ≡ total d n
parse_amount d n frac h f =
    let whole : Text = display d ++ b'.' ∷ frac in
    let (c, s, e) = display_cons d in
    let is_plain : all plain whole ≡ true = ground (
      arith,
      all-append plain (display d) (b'.' ∷ frac),
      plain_of_digits (display d) (display-IsDigits d),
      plain_of_digits frac f.digits_only,
    ) in
    parse_split whole c (s ++ b'.' ∷ frac) (display d) (frac ∷ [])
      (ap (λ (t : Text). t ++ b'.' ∷ frac) e) (trim-plain whole is_plain)
      (split-point (display d) frac (display-IsDigits d) f.digits_only)
    ∙ parse_display d n frac h f

nine_digits : (n : ℕ) → n < 10 ^ 9 → length (pad_left 9 (display n)) ≡ 9
unfolding pad_left
nine_digits n h = omega (
  arith,
  length-append (zeros (9 - length (display n))) (display n),
  length-zeros (9 - length (display n)),
  length-display n 8 h,
)

pad_right_twice : (a b : ℕ) (t : Text) → a ≤ b → pad_right b (pad_right a t) ≡ pad_right b t
unfolding pad_right
pad_right_twice a b t h =
    let L = length t in
    rw (append_assoc t (zeros (a - L)), zeros-add (a - L))
      (ap (λ (j : ℕ). t ++ zeros j)
        (omega (arith, length-append t (zeros (a - L)), length-zeros (a - L))))

-- Padding to two and then to nine places is padding to nine.
pad_cents :
    (t : Text) (k : ℕ) → IsDigits t → length t + k ≡ 9 → pad_right 9 (cents_of t) ≡ t ++ zeros k
unfolding pad_right cents_of
pad_cents t k d h =
    let padded : pad_right 9 t ≡ t ++ zeros k = ap (λ (j : ℕ). t ++ zeros j) (omega arith) in
    elim (Bool-cases (ltb (byte_len t) 2)) [
      | inl short ↦ rw short (pad_right_twice 2 9 t (omega arith) ∙ padded)
      | inr long ↦ rw long padded
    ]

cents_of-IsDigits : (t : Text) → IsDigits t → IsDigits (cents_of t)
unfolding cents_of pad_right
cents_of-IsDigits t d =
    ground
      (arith, all-append is_ascii_digit t (zeros (2 - length t)), zeros-IsDigits (2 - length t))

length-cents_of : (t : Text) → length t ≤ 9 → length (cents_of t) ≤ 9
unfolding cents_of pad_right
length-cents_of t h =
    ground (arith, length-append t (zeros (2 - length t)), length-zeros (2 - length t))

pub parse_nine : (s : Text) → IsDigits s → length s ≡ 9 → parse_u64 s ≡ digits 0 s
parse_nine [] d h = absurd (omega arith)
parse_nine (c ∷ s) d h = parse_u64-digits c s d

trimmed-IsFraction :
    (n : ℕ) (s t : Text) (k : ℕ)
    → IsDigits s
    → length s ≡ 9
    → digits 0 s ≡ some n
    → t ++ zeros k ≡ s
    → IsFraction n (cents_of t)
unfolding fraction_nanos
trimmed-IsFraction n s t k d nine value e =
    let split_all = all-append is_ascii_digit t (zeros k) in
    let sizes = length-append t (zeros k) in
    let size : length t + k ≡ 9 = omega (arith, sizes, ap length e, length-zeros k) in
    let only : IsDigits t = ground (arith, split_all, ap (all is_ascii_digit) e) in
    record {
      digits_only = cents_of-IsDigits t only;
      short = length-cents_of t (omega arith);
      value = ap parse_u64 (pad_cents t k only size ∙ e) ∙ parse_nine s d nine ∙ value;
    }

fraction_text-IsFraction : (n : ℕ) → n < 10 ^ 9 → IsFraction n (fraction_text n)
unfolding fraction_text pad_left
fraction_text-IsFraction n h =
    let pad = zeros (9 - length (display n)) in
    let (k, e) = trim_end-zeros (pad ++ display n) in
    let only = all-append is_ascii_digit pad (display n) in
    trimmed-IsFraction n (pad ++ display n) _ k
      (ground (arith, only, zeros-IsDigits (9 - length (display n)), display-IsDigits n))
      (nine_digits n h)
      (digits-zeros (9 - length (display n)) (display n) ∙ digits_of_display n (omega arith)) e

no_cents : IsFraction 0 (b'0' ∷ b'0' ∷ [])
unfolding is_ascii_digit fraction_nanos pad_right parse_u64 digits
no_cents = record { digits_only = refl; short = omega arith; value = refl }

total_of_parts :
    (n : ℕ) → IsU64 n → total (n / 1_000_000_000) (n % 1_000_000_000) ≡ ok (record { nanos = n })
unfolding total
total_of_parts n h = ground arith

-- Reading the decimal text of an amount gives the amount back, for every u64 count of nanos.
pub decimal_round_trip :
    (a : NanoUsd) → IsU64 a.nanos → checked_from_decimal_usd (to_decimal_usd a) ≡ ok a
unfolding to_decimal_usd
decimal_round_trip a h =
    let dollars = a.nanos / 1_000_000_000 in
    let nanos = a.nanos % 1_000_000_000 in
    elim (Bool-cases (nat_beq nanos 0)) [
      | inl none_left ↦
          let whole : nanos ≡ 0 = ground arith in
          rw none_left (
            parse_amount dollars 0 (b'0' ∷ b'0' ∷ []) (omega arith) no_cents
            ∙ ap (total dollars) (sym whole)
            ∙ total_of_parts a.nanos h)
      | inr some_left ↦ rw some_left (
          parse_amount dollars nanos (fraction_text nanos) (omega arith)
            (fraction_text-IsFraction nanos (omega arith))
          ∙ total_of_parts a.nanos h)
    ]
