-- ===== src/Compiler/Policy/Pattern.antt =====
-- `pattern_matches` of crates/fusion-compiler/src/policy.rs, on texts as lists of code points.
use fusion_router.Prelude.Sets.{contains}
use fusion_router.Prelude.{
  take, append-nil, subst, ℕ, zero, suc, ◌-◌, ◌≤◌, ◌≡◌, refl, sym, ap, ◌∙◌, ◌↔◌, Bool, true, false,
  ◌&&◌, nat_beq, nat_beq_iff, leb, nat_eq, text_eq, if◌then◌else◌, List, [], ◌∷◌, ◌++◌, length,
  drop, length-append, Option, none, some, Text, text_beq, text_beq_iff, arith,
}

-- The code point of `*`.
abbrev pub star : ℕ
star = 42

unfoldable pub split_once : Text → Option (Text × Text)
split_once [] = none
split_once (c ∷ s) =
    let rest = split_once s in
    if nat_beq c star
    then some ([], s)
    else elim rest [ none ↦ none | some (before, after) ↦ some (c ∷ before, after) ]

unfoldable pub starts_with : Text → Text → Bool
starts_with s [] = true
starts_with [] (c ∷ prefix) = false
starts_with (d ∷ s) (c ∷ prefix) = nat_beq d c && starts_with s prefix

unfoldable pub ends_with : Text → Text → Bool
ends_with s suffix =
    leb (length suffix) (length s) && text_beq (drop (length s - length suffix) s) suffix

-- `strip_suffix('*')`.
unfoldable pub strip_star : Text → Option Text
strip_star [] = none
strip_star (c ∷ []) = if nat_beq c star then some [] else none
strip_star (c ∷ d ∷ s) = elim (strip_star (d ∷ s)) [ none ↦ none | some rest ↦ some (c ∷ rest) ]

-- `split('*')`.
unfoldable pub split_stars : Text → List Text
split_stars [] = [] ∷ []
split_stars (c ∷ s) = elim (split_stars s) [
  | [] ↦ []
  | segment ∷ segments ↦
      if nat_beq c star then [] ∷ segment ∷ segments else (c ∷ segment) ∷ segments
]

-- What follows the first occurrence of a segment.
unfoldable pub after_first : Text → Text → Option Text
after_first segment [] = if starts_with [] segment then some [] else none
after_first segment (c ∷ s) =
    let rest = after_first segment s in
    if starts_with (c ∷ s) segment then some (drop (length segment) (c ∷ s)) else rest

unfoldable pub match_segments : Text → List Text → Bool
match_segments cursor [] = true
match_segments cursor (segment ∷ segments) = elim (after_first segment cursor) [
  | none ↦ false
  | some rest ↦ match_segments rest segments
]

unfoldable pub match_suffix : Text → Text → Bool
match_suffix rest suffix = if nat_beq (length suffix) 0 then true else elim (strip_star suffix) [
  | some middle ↦ match_segments rest (split_stars middle)
  | none ↦ ends_with rest suffix
]

unfoldable pub pattern_matches : Text → Text → Bool
pattern_matches pattern candidate = elim (split_once pattern) [
  | none ↦ text_beq pattern candidate
  | some (prefix, suffix) ↦
      if starts_with candidate prefix
      then match_suffix (drop (length prefix) candidate) suffix
      else false
]

split_once-first :
    (prefix suffix : Text)
    → contains prefix star ≡ false
    → split_once (prefix ++ star ∷ suffix) ≡ some (prefix, suffix)
unfolding split_once contains
split_once-first [] suffix h = refl
split_once-first (c ∷ prefix) suffix h =
    let miss : nat_beq c star ≡ false = ground arith in
    let rest = split_once-first prefix suffix (ground arith) in rw (miss, rest) refl

starts_with-append : (prefix rest : Text) → starts_with (prefix ++ rest) prefix ≡ true
unfolding starts_with
starts_with-append [] rest = refl
starts_with-append (c ∷ prefix) rest =
    ground (arith, starts_with-append prefix rest, nat_beq_iff c c)

drop-append : (prefix rest : Text) → drop (length prefix) (prefix ++ rest) ≡ rest
drop-append [] rest = refl
drop-append (c ∷ prefix) rest = drop-append prefix rest

starts_with-split :
    (s prefix : Text) → starts_with s prefix ≡ true → s ≡ prefix ++ drop (length prefix) s
unfolding starts_with
starts_with-split s [] h = refl
starts_with-split [] (c ∷ prefix) h = absurd (cc h)
starts_with-split (d ∷ s) (c ∷ prefix) h =
    ground (arith, starts_with-split s prefix, nat_beq_iff d c)

drop-all : (n : ℕ) (s : Text) → length s ≤ n → drop n s ≡ []
drop-all zero [] h = refl
drop-all (suc n) [] h = refl
drop-all zero (c ∷ s) h = absurd (omega arith)
drop-all (suc n) (c ∷ s) h = drop-all n s (omega arith)

take-drop : (n : ℕ) (s : Text) → take n s ++ drop n s ≡ s
take-drop zero s = refl
take-drop (suc n) [] = refl
take-drop (suc n) (c ∷ s) = ap (λ t. c ∷ t) (take-drop n s)

ends_with-split :
    (s suffix : Text) → ends_with s suffix ≡ true → s ≡ take (length s - length suffix) s ++ suffix
unfolding ends_with
ends_with-split s suffix h =
    let n = length s - length suffix in
    let same : drop n s ≡ suffix = (text_beq_iff (drop n s) suffix).0 (ground arith) in
    sym (take-drop n s) ∙ ap (λ t. take n s ++ t) same

drop-length : (xs ys : Text) → drop (length (xs ++ ys) - length ys) (xs ++ ys) ≡ ys
drop-length xs ys =
    ap (λ n. drop n (xs ++ ys)) (omega (arith, length-append xs ys)) ∙ drop-append xs ys

ends_with-append : (xs ys : Text) → ends_with (xs ++ ys) ys ≡ true
unfolding ends_with
ends_with-append xs ys = ground (
  arith,
  length-append xs ys,
  drop-length xs ys,
  text_beq_iff (drop (length (xs ++ ys) - length ys) (xs ++ ys)) ys,
)

match_suffix-ends_with :
    (rest suffix : Text)
    → strip_star suffix ≡ none
    → match_suffix rest suffix ≡ ends_with rest suffix
unfolding match_suffix
match_suffix-ends_with rest [] h =
    sym (subst (λ t. ends_with t [] ≡ true) (append-nil rest) (ends_with-append rest []))
match_suffix-ends_with rest (c ∷ suffix) h =
    let more : nat_beq (suc (length suffix)) 0 ≡ false = ground arith in rw (more, h) refl

-- The last test of `pattern_matches`.
abbrev pub fits : Text → Text → Text → Bool
fits prefix suffix candidate =
    if starts_with candidate prefix
    then match_suffix (drop (length prefix) candidate) suffix
    else false

pattern_matches-fits :
    (prefix suffix candidate : Text)
    → contains prefix star ≡ false
    → pattern_matches (prefix ++ star ∷ suffix) candidate ≡ fits prefix suffix candidate
unfolding pattern_matches starts_with
pattern_matches-fits prefix suffix candidate p =
    rw (split_once-first prefix suffix p, pattern_matches) refl

matched :
    (prefix suffix candidate : Text)
    → strip_star suffix ≡ none
    → fits prefix suffix candidate ≡ true
    → (middle : Text) × (candidate ≡ prefix ++ (middle ++ suffix))
matched prefix suffix candidate s h =
    let rest = drop (length prefix) candidate in
    let begins : starts_with candidate prefix ≡ true = ground arith in
    let ends : ends_with rest suffix ≡ true =
      ground (arith, match_suffix-ends_with rest suffix s) in
    (
      take (length rest - length suffix) rest,
      starts_with-split candidate prefix begins
          ∙ ap (λ t. prefix ++ t) (ends_with-split rest suffix ends),
    )

matching :
    (prefix suffix middle : Text)
    → strip_star suffix ≡ none
    → fits prefix suffix (prefix ++ (middle ++ suffix)) ≡ true
matching prefix suffix middle s =
    rw
      (
        starts_with-append prefix (middle ++ suffix),
        fits,
        drop-append prefix (middle ++ suffix),
        match_suffix-ends_with (middle ++ suffix) suffix s,
      )
      (ends_with-append middle suffix)

-- A pattern is a text without a star, a star, and a text that does not end in a star. It matches
-- exactly the candidates that begin with the first text and end in the second, without overlap. (The
-- second text stands for itself, with any stars that it has.)
pub pattern_matches_lem :
    (prefix suffix candidate : Text)
    → contains prefix star ≡ false
    → strip_star suffix ≡ none
    → (pattern_matches (prefix ++ star ∷ suffix) candidate ≡ true)
      ↔ ((middle : Text) × (candidate ≡ prefix ++ (middle ++ suffix)))
pattern_matches_lem prefix suffix candidate p s = (
  λ h. matched prefix suffix candidate s (sym (pattern_matches-fits prefix suffix candidate p) ∙ h),
  λ (middle, e).
      pattern_matches-fits prefix suffix candidate p
      ∙ ap (fits prefix suffix) e
      ∙ matching prefix suffix middle s,
)
