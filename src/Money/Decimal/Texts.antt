-- ===== src/Money/Decimal/Texts.antt =====
-- Lemmas on the texts of amounts: digits, padding, trimming and splitting.
use fusion_router.Prelude.{
  ℕ, zero, suc, ◌+◌, ◌*◌, ◌/◌, ◌%◌, ◌^◌, ◌≤◌, ◌<◌, ◌≡◌, refl, sym, ap, ◌∙◌, Bool, true, false, ◌&&◌,
  ◌||◌, [], ◌∷◌, ◌++◌, some, arith, ltb, nat_beq, inl, inr, length, length-append, all,
  append_assoc, append-nil, Bool-cases, Text,
}
use fusion_router.Prelude.Words.{IsU64}
use fusion_router.Money.Decimal.{
  is_whitespace, is_ascii_digit, byte_len, trim_start, trim_end, trim, split, push_digit, digits,
  parse_u64, zeros, display_fuel, display,
}
use mathlib.Core.List.{reverse, reverse-append, reverse-reverse, reverse-cons}
use native.Mathlib.Nat.{pow-suc}

abbrev pub IsDigits : Text → Type 0
IsDigits s = all is_ascii_digit s ≡ true

pub all-append : (p : ℕ → Bool) (xs ys : Text) → all p (xs ++ ys) ≡ (all p xs && all p ys)
all-append p [] ys = refl
all-append p (x ∷ xs) ys = ground (arith, all-append p xs ys)

pub zeros-IsDigits : (k : ℕ) → IsDigits (zeros k)
unfolding is_ascii_digit
zeros-IsDigits zero = refl
zeros-IsDigits (suc k) = zeros-IsDigits k

pub length-zeros : (k : ℕ) → length (zeros k) ≡ k
length-zeros zero = refl
length-zeros (suc k) = ap suc (length-zeros k)

pub zeros-add : (a b : ℕ) → zeros a ++ zeros b ≡ zeros (a + b)
zeros-add zero b = let e : 0 + b ≡ b = omega arith in rw e
zeros-add (suc a) b =
    let e : suc a + b ≡ suc (a + b) = omega arith in rw e (ap (◌∷◌ b'0') (zeros-add a b))

zeros-append_comm : (k : ℕ) (s : Text) → zeros k ++ b'0' ∷ s ≡ b'0' ∷ zeros k ++ s
zeros-append_comm zero s = refl
zeros-append_comm (suc k) s = ap (◌∷◌ b'0') (zeros-append_comm k s)

reverse-zeros : (k : ℕ) → reverse (zeros k) ≡ zeros k
reverse-zeros zero = refl
reverse-zeros (suc k) =
    rw (reverse-cons b'0' (zeros k), reverse-zeros k)
      (zeros-append_comm k [] ∙ ap (◌∷◌ b'0') (append-nil (zeros k)))

-- Digits are one byte each.
pub byte_len-digits : (s : Text) → IsDigits s → byte_len s ≡ length s
unfolding byte_len is_ascii_digit
byte_len-digits [] h = refl
byte_len-digits (c ∷ s) h = ground (arith, byte_len-digits s)

-- Trimming zeros at the end takes off zeros and nothing else.
trim_start-zeros : (s : Text) → (k : ℕ) × (zeros k ++ trim_start (λ c. nat_beq c b'0') s ≡ s)
unfolding trim_start
trim_start-zeros [] = (0, refl)
trim_start-zeros (c ∷ s) = elim (Bool-cases (nat_beq c b'0')) [
  | inl z ↦ let (k, e) = trim_start-zeros s in (suc k, rw z (ground arith))
  | inr d ↦ (0, rw d refl)
]

pub trim_end-zeros : (s : Text) → (k : ℕ) × (trim_end (λ c. nat_beq c b'0') s ++ zeros k ≡ s)
unfolding trim_end
trim_end-zeros s =
    let (k, e) = trim_start-zeros (reverse s) in
    let t = trim_start (λ c. nat_beq c b'0') (reverse s) in
    (
      k,
      ap (λ z. reverse t ++ z) (sym (reverse-zeros k))
          ∙ sym (reverse-append (zeros k) t)
          ∙ ap reverse e
          ∙ reverse-reverse s,
    )

-- A text of digits and points is not trimmed.
abbrev pub plain : ℕ → Bool
plain c = is_ascii_digit c || nat_beq c b'.'

plain_not_whitespace : (c : ℕ) → plain c ≡ true → is_whitespace c ≡ false
unfolding is_whitespace is_ascii_digit
plain_not_whitespace c h = ground arith

trim_start-plain : (s : Text) → all plain s ≡ true → trim_start is_whitespace s ≡ s
unfolding trim_start
trim_start-plain [] h = refl
trim_start-plain (c ∷ s) h = ground (arith, plain_not_whitespace c)

all-reverse : (p : ℕ → Bool) (s : Text) → all p s ≡ true → all p (reverse s) ≡ true
all-reverse p [] h = refl
all-reverse p (c ∷ s) h =
    rw (reverse-cons c s) (ground (arith, all-append p (reverse s) (c ∷ []), all-reverse p s))

pub trim-plain : (s : Text) → all plain s ≡ true → trim s ≡ s
unfolding trim trim_end
trim-plain s h =
    rw (trim_start-plain s h, trim_start-plain (reverse s) (all-reverse plain s h))
      (reverse-reverse s)

pub plain_of_digits : (s : Text) → IsDigits s → all plain s ≡ true
plain_of_digits [] h = refl
plain_of_digits (c ∷ s) h = ground (arith, plain_of_digits s)

split-digits : (s : Text) → IsDigits s → split b'.' s ≡ (s, [])
unfolding split is_ascii_digit
split-digits [] h = refl
split-digits (c ∷ s) h = ground (arith, split-digits s)

pub split-point : (s t : Text) → IsDigits s → IsDigits t → split b'.' (s ++ b'.' ∷ t) ≡ (s, t ∷ [])
unfolding split is_ascii_digit
split-point [] t h k = ground (arith, split-digits t)
split-point (c ∷ s) t h k = ground (arith, split-point s t)

fuel_left : (f n : ℕ) → n < 10 ^ suc f → 10 ≤ n → 0 < f
fuel_left zero n lt h = absurd (omega arith)
fuel_left (suc f) n lt h = omega arith

-- Reading back what `display` writes.
pub digits-display :
    (f n : ℕ) (s : Text)
    → 0 < f
    → n < 10 ^ f
    → IsU64 n
    → digits 0 (display_fuel f n ++ s) ≡ digits n s
unfolding digits display_fuel is_ascii_digit
digits-display zero n s p lt h = elim p [ ]
digits-display (suc f) n s p lt h = elim (Bool-cases (ltb n 10)) [
  | inl small ↦ rw small (ground arith)
  | inr large ↦
      let power : 10 ^ suc f ≡ 10 * 10 ^ f = omega (arith, pow-suc 10 f) in
      let fuel : 0 < f = fuel_left f n lt (ground arith) in
      let digit : push_digit (n / 10) (48 + n % 10) ≡ some n = ground arith in
      rw (large, append_assoc)
        (digits-display f (n / 10) ((48 + n % 10) ∷ s) fuel (omega arith) (omega arith)
          ∙ ground arith)
]

display_fuel-IsDigits : (f n : ℕ) → IsDigits (display_fuel f n)
unfolding display_fuel is_ascii_digit
display_fuel-IsDigits zero n = refl
display_fuel-IsDigits (suc f) n = ground (
  arith,
  all-append is_ascii_digit (display_fuel f (n / 10)) ((b'0' + n % 10) ∷ []),
  display_fuel-IsDigits f (n / 10),
)

length-display_fuel : (f n k : ℕ) → n < 10 ^ suc k → length (display_fuel f n) ≤ suc k
unfolding display_fuel
length-display_fuel zero n k h = omega arith
length-display_fuel (suc f) n zero h = ground arith
length-display_fuel (suc f) n (suc k) h =
    let power : 10 ^ suc (suc k) ≡ 10 * 10 ^ suc k = omega (arith, pow-suc 10 (suc k)) in
    ground (
      arith,
      length-append (display_fuel f (n / 10)) ((b'0' + n % 10) ∷ []),
      length-display_fuel f (n / 10) k (omega arith),
    )

snoc_cons : (s : Text) (c : ℕ) → (d : ℕ) × (r : Text) × (s ++ c ∷ [] ≡ d ∷ r)
snoc_cons [] c = (c, [], refl)
snoc_cons (x ∷ s) c = (x, s ++ c ∷ [], refl)

display_fuel_cons : (f n : ℕ) → (c : ℕ) × (s : Text) × (display_fuel (suc f) n ≡ c ∷ s)
unfolding display_fuel
display_fuel_cons f n = elim (Bool-cases (ltb n 10)) [
  | inl small ↦ (b'0' + n, [], rw small refl)
  | inr large ↦ rw large (snoc_cons (display_fuel f (n / 10)) (b'0' + n % 10))
]

pub display-IsDigits : (n : ℕ) → IsDigits (display n)
unfolding display
display-IsDigits n = display_fuel-IsDigits 20 n

pub length-display : (n k : ℕ) → n < 10 ^ suc k → length (display n) ≤ suc k
unfolding display
length-display n k h = length-display_fuel 20 n k h

pub display_cons : (n : ℕ) → (c : ℕ) × (s : Text) × (display n ≡ c ∷ s)
unfolding display
display_cons n = display_fuel_cons 19 n

pub digits_of_display : (n : ℕ) → IsU64 n → digits 0 (display n) ≡ some n
unfolding display digits
digits_of_display n h =
    rw (append-nil (display_fuel 20 n)) at (digits-display 20 n [] (omega arith) (omega arith) h)

-- A text that begins with a digit has no sign.
pub parse_u64-digits : (c : ℕ) (s : Text) → IsDigits (c ∷ s) → parse_u64 (c ∷ s) ≡ digits 0 (c ∷ s)
unfolding parse_u64 is_ascii_digit
parse_u64-digits c [] h = refl
parse_u64-digits c (d ∷ s) h = ground arith

pub digits-zeros : (k : ℕ) (s : Text) → digits 0 (zeros k ++ s) ≡ digits 0 s
unfolding digits is_ascii_digit
digits-zeros zero s = refl
digits-zeros (suc k) s = digits-zeros k s
