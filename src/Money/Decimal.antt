-- ===== src/Money/Decimal.antt =====
-- Decimal text of amounts: `checked_from_decimal_usd` and `to_decimal_usd` of
-- crates/fusion-core/src/monetary.rs. A text is the list of its code points.
pub mod Texts
pub mod RoundTrip
mod Tests
use fusion_router.Prelude.{
  ℕ, zero, suc, ◌+◌, ◌-◌, ◌*◌, ◌/◌, ◌%◌, ◌≡◌, refl, Bool, true, false, ◌&&◌, ◌||◌, not, List, [],
  ◌∷◌, ◌++◌, Option, none, some, arith, ltb, leb, nat_beq, if◌then◌else◌, length, all, Text, codes,
}
use fusion_router.Prelude.Words.{checked_add, checked_mul}
use fusion_router.Money.{NanoUsd}
use mathlib.Core.List.{reverse}

pub data MoneyError : Type 0 where
  empty_string multiple_points invalid_integer precision bad_fraction_char : MoneyError
  invalid_fraction overflow : MoneyError

pub data Parsed : Type 0 where
  ok : NanoUsd → Parsed
  err : MoneyError → Parsed

-- Unicode White_Space, which `trim` removes.
unfoldable pub is_whitespace : ℕ → Bool
is_whitespace c =
    (leb 9 c && leb c 13)
    || nat_beq c 32
    || nat_beq c 0x85
    || nat_beq c 0xa0
    || nat_beq c 0x1680
    || (leb 0x2000 c && leb c 0x200a)
    || nat_beq c 0x2028
    || nat_beq c 0x2029
    || nat_beq c 0x202f
    || nat_beq c 0x205f
    || nat_beq c 0x3000

unfoldable pub is_ascii_digit : ℕ → Bool
is_ascii_digit c = leb b'0' c && leb c b'9'

-- The length of a code point in UTF-8, and of a text (`str::len`).
abbrev utf8_len : ℕ → ℕ
utf8_len c = if ltb c 0x80 then 1 else if ltb c 0x800 then 2 else if ltb c 0x1_0000 then 3 else 4

pub byte_len : Text → ℕ
byte_len [] = 0
byte_len (c ∷ s) = utf8_len c + byte_len s

-- `trim_start_matches` and `trim_end_matches` of a class of characters.
pub trim_start : (ℕ → Bool) → Text → Text
trim_start p [] = []
trim_start p (c ∷ s) = let rest = trim_start p s in if p c then rest else c ∷ s

pub trim_end : (ℕ → Bool) → Text → Text
trim_end p s = reverse (trim_start p (reverse s))

pub trim : Text → Text
trim s = trim_end is_whitespace (trim_start is_whitespace s)

-- `split`: the piece before the first separator, and the pieces behind it.
pub split : ℕ → Text → Text × List Text
split sep [] = ([], [])
split sep (c ∷ s) =
    let (piece, rest) = split sep s in
    if nat_beq c sep then ([], piece ∷ rest) else (c ∷ piece, rest)

-- `str::parse::<u64>`: an optional plus, then at least one digit; it fails on overflow.
abbrev pub push_digit : ℕ → ℕ → Option ℕ
push_digit n c = elim (checked_mul n 10) [ none ↦ none | some m ↦ checked_add m (c - b'0') ]

pub digits : ℕ → Text → Option ℕ
digits n [] = some n
digits n (c ∷ s) =
    if is_ascii_digit c then elim (push_digit n c) [ none ↦ none | some m ↦ digits m s ] else none

pub parse_u64 : Text → Option ℕ
parse_u64 [] = none
parse_u64 (c ∷ []) = digits 0 (c ∷ [])
parse_u64 (c ∷ d ∷ s) = if nat_beq c b'+' then digits 0 (d ∷ s) else digits 0 (c ∷ d ∷ s)

-- `{:0<w}` and `{:0>w}`: padding with zeros on the right and on the left.
abbrev pub zeros : ℕ → Text
zeros zero = []
zeros (suc n) = b'0' ∷ zeros n

pub pad_right : ℕ → Text → Text
pad_right w s = s ++ zeros (w - length s)

pub pad_left : ℕ → Text → Text
pad_left w s = zeros (w - length s) ++ s

-- `Display` of a number below 10 ^ fuel.
pub display_fuel : ℕ → ℕ → Text
display_fuel zero n = []
display_fuel (suc f) n =
    let rest = display_fuel f (n / 10) in
    if ltb n 10 then (b'0' + n) ∷ [] else rest ++ (b'0' + n % 10) ∷ []

-- Twenty digits are enough for a u64.
pub display : ℕ → Text
display = display_fuel 20

-- The conversion of the two parts, once they are found.
pub fraction_nanos : Text → Option ℕ
fraction_nanos frac = parse_u64 (pad_right 9 frac)

pub total : ℕ → ℕ → Parsed
total dollars frac = elim (checked_mul dollars 1_000_000_000) [
  | none ↦ err overflow
  | some d ↦ elim (checked_add d frac) [ none ↦ err overflow | some n ↦ ok (record { nanos = n }) ]
]

pub dollars_of : Text → Option ℕ
dollars_of [] = some 0
dollars_of (c ∷ s) = parse_u64 (c ∷ s)

pub from_parts : ℕ → List Text → Parsed
from_parts dollars [] = total dollars 0
from_parts dollars (frac ∷ _) =
    if ltb 9 (byte_len frac)
    then err precision
    else if not (all is_ascii_digit frac)
    then err bad_fraction_char
    else elim (fraction_nanos frac) [ none ↦ err invalid_fraction | some n ↦ total dollars n ]

pub parse_parts : Text → List Text → Parsed
parse_parts first rest =
    if ltb 2 (suc (length rest))
    then err multiple_points
    else elim (dollars_of first) [ none ↦ err invalid_integer | some d ↦ from_parts d rest ]

unfoldable pub checked_from_decimal_usd : Text → Parsed
checked_from_decimal_usd text = elim (trim text) [
  | [] ↦ err empty_string
  | c ∷ s ↦ let (first, rest) = split b'.' (c ∷ s) in parse_parts first rest
]

pub cents_of : Text → Text
cents_of trimmed = if ltb (byte_len trimmed) 2 then pad_right 2 trimmed else trimmed

pub fraction_text : ℕ → Text
fraction_text nanos = cents_of (trim_end (λ c. nat_beq c b'0') (pad_left 9 (display nanos)))

unfoldable pub to_decimal_usd : NanoUsd → Text
to_decimal_usd a =
    let dollars = a.nanos / 1_000_000_000 in
    let nanos = a.nanos % 1_000_000_000 in
    if nat_beq nanos 0
    then display dollars ++ codes ".00"
    else display dollars ++ b'.' ∷ fraction_text nanos
