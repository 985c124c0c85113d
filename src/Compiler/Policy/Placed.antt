-- ===== src/Compiler/Policy/Placed.antt =====
-- The place of a rule in a policy, and how it passes from the rules that match to all of them.
use fusion_router.Prelude.{
  ◌≡◌, inl, inr, Bool, true, false, List, [], ◌∷◌, keep, All, Bool-cases, if-both,
}
use fusion_router.Compiler.Policy.{PolicyRule}

-- The place of a rule in a list, with what holds of the rules before it and of those after it.
pub data Placed {V : Type 0} (Before After : PolicyRule V → Type 0) (r : PolicyRule V)
    : List (PolicyRule V) → Type 0 where
  here : {rules : List (PolicyRule V)} → All After rules → Placed Before After r (r ∷ rules)
  there :
      {s : PolicyRule V} {rules : List (PolicyRule V)}
      → Before s
      → Placed Before After r rules
      → Placed Before After r (s ∷ rules)

module _ {V : Type 0} where
  pub Placed-All :
      (B A P : PolicyRule V → Type 0) (r : PolicyRule V) (rules : List (PolicyRule V))
      → All P rules
      → Placed B A r rules
      → P r
  Placed-All B A P r _ h (here _) = h.0
  Placed-All B A P r _ h (there {s} {rules} _ rest) = Placed-All B A P r rules h.1 rest

  Placed-cons :
      (B A B' A' : PolicyRule V → Type 0) (r s : PolicyRule V) (xs ys : List (PolicyRule V))
      → (B s → B' s)
      → (All A xs → All A' ys)
      → (Placed B A r xs → Placed B' A' r ys)
      → Placed B A r (s ∷ xs)
      → Placed B' A' r (s ∷ ys)
  Placed-cons B A B' A' r _ xs ys before after rest (here h) = here (after h)
  Placed-cons B A B' A' r s xs ys before after rest (there b m) = there (before b) (rest m)

  module _ (fits : PolicyRule V → Bool) where
    pub keep-fits : (rules : List (PolicyRule V)) → All (λ s. fits s ≡ true) (keep fits rules)
    keep-fits [] = tt
    keep-fits (s ∷ rules) =
        if-both (All (λ t. fits t ≡ true)) (fits s) (λ y. (y, keep-fits rules))
          (λ n. keep-fits rules)

    All-keep :
        (P Q : PolicyRule V → Type 0) (rules : List (PolicyRule V))
        → ((s : PolicyRule V) → fits s ≡ true → P s → Q s)
        → ((s : PolicyRule V) → fits s ≡ false → Q s)
        → All P (keep fits rules)
        → All Q rules
    All-keep P Q [] fit unfit h = tt
    All-keep P Q (s ∷ rules) fit unfit h = elim (Bool-cases (fits s)) [
      | inl y ↦
          let both : P s × All P (keep fits rules) = rw y at h in
          (fit s y both.0, All-keep P Q rules fit unfit both.1)
      | inr n ↦ (unfit s n, All-keep P Q rules fit unfit (rw n at h))
    ]

    pub Placed-keep :
        (B A B' A' : PolicyRule V → Type 0) (r : PolicyRule V) (rules : List (PolicyRule V))
        → ((s : PolicyRule V) → fits s ≡ true → B s → B' s)
        → ((s : PolicyRule V) → fits s ≡ true → A s → A' s)
        → ((s : PolicyRule V) → fits s ≡ false → B' s × A' s)
        → Placed B A r (keep fits rules)
        → Placed B' A' r rules
    Placed-keep B A B' A' r [] before after unfit m = elim m [ ]
    Placed-keep B A B' A' r (s ∷ rules) before after unfit m = elim (Bool-cases (fits s)) [
      | inl y ↦
          Placed-cons B A B' A' r s (keep fits rules) rules (before s y)
            (All-keep A A' rules after (λ t n. (unfit t n).1))
            (Placed-keep B A B' A' r rules before after unfit) (rw y at m)
      | inr n ↦ there (unfit s n).0 (Placed-keep B A B' A' r rules before after unfit (rw n at m))
    ]
