-- ===== src/Compiler/Policy/Precedence.antt =====
-- The rule that `evaluate_matching_rule` chooses.
use fusion_router.Prelude.{
  ◌≡◌, ◌<◌, refl, sym, subst, ap, ◌⊎◌, inl, inr, Bool, true, false, if◌then◌else◌, List, [], ◌∷◌,
  keep, ltb, Option, none, some, Text, text_eq, All, arith, Bool-cases,
}
use fusion_router.Compiler.Policy.Placed.{Placed, here, there, Placed-All, Placed-keep, keep-fits}
use fusion_router.Compiler.Policy.Matching.{Matches, is_matching-Matches}
use fusion_router.Compiler.Policy.{
  PolicyEffect, deny, approval, allow, PolicyRule, PolicyFacts, rank, is_at_most, max_from,
  max_rule, is_matching, evaluate_matching_rule,
}

-- A rule that denies is stronger than one that asks for approval, and both than one that allows.
pub data Stronger : PolicyEffect → PolicyEffect → Type 0 where
  deny_approval : Stronger deny approval
  deny_allow : Stronger deny allow
  approval_allow : Stronger approval allow

Stronger-rank : (a b : PolicyEffect) → Stronger a b → ltb (rank a) (rank b) ≡ true
Stronger-rank _ _ deny_approval = refl
Stronger-rank _ _ deny_allow = refl
Stronger-rank _ _ approval_allow = refl

effects_compare : (a b : PolicyEffect) → Stronger a b ⊎ (a ≡ b) ⊎ Stronger b a
effects_compare deny deny = inr (inl refl)
effects_compare deny approval = inl deny_approval
effects_compare deny allow = inl deny_allow
effects_compare approval deny = inr (inr deny_approval)
effects_compare approval approval = inr (inl refl)
effects_compare approval allow = inl approval_allow
effects_compare allow deny = inr (inr deny_allow)
effects_compare allow approval = inr (inr approval_allow)
effects_compare allow allow = inr (inl refl)

module _ {V : Type 0} where
  -- A rule goes before another by its effect, or by its priority where the effects are the same.
  abbrev pub Beats : PolicyRule V → PolicyRule V → Type 0
  Beats s r = Stronger s.effect r.effect ⊎ ((s.effect ≡ r.effect) × (r.priority < s.priority))

  Beats-not_at_most : (s r : PolicyRule V) → Beats s r → is_at_most s r ≡ false
  Beats-not_at_most s r (inl strong) = ground (arith, Stronger-rank s.effect r.effect strong)
  Beats-not_at_most s r (inr (same, more)) = ground (arith, ap rank same)

  not_at_most-Beats : (s r : PolicyRule V) → is_at_most s r ≡ false → Beats s r
  not_at_most-Beats s r h = elim (effects_compare s.effect r.effect) [
    | inl strong ↦ inl strong
    | inr (inl same) ↦ inr (same, ground (arith, ap rank same))
    | inr (inr weak) ↦ absurd (ground (arith, Stronger-rank r.effect s.effect weak))
  ]

  at_most_trans :
      (a b c : PolicyRule V) → is_at_most a b ≡ true → is_at_most b c ≡ true → is_at_most a c ≡ true
  at_most_trans a b c h k = ground arith

  at_most_total : (a b : PolicyRule V) → is_at_most a b ≡ false → is_at_most b a ≡ true
  at_most_total a b h = ground arith

  at_most_refl : (a : PolicyRule V) → is_at_most a a ≡ true
  at_most_refl a = ground arith

  step-up :
      (best r : PolicyRule V) (rules : List (PolicyRule V))
      → is_at_most best r ≡ true
      → max_from best (r ∷ rules) ≡ max_from r rules
  unfolding max_from
  step-up best r rules up = ap (λ b. max_from (if b then r else best) rules) up

  step-down :
      (best r : PolicyRule V) (rules : List (PolicyRule V))
      → is_at_most best r ≡ false
      → max_from best (r ∷ rules) ≡ max_from best rules
  unfolding max_from
  step-down best r rules down = ap (λ b. max_from (if b then r else best) rules) down

  -- The last of the greatest.
  abbrev Last : PolicyRule V → List (PolicyRule V) → Type 0
  Last m rules = Placed (λ s. is_at_most s m ≡ true) (λ s. is_at_most m s ≡ false) m rules

  Last-head :
      (m r : PolicyRule V) (rules : List (PolicyRule V))
      → Last m (r ∷ rules)
      → is_at_most r m ≡ true
  Last-head m _ rules (here after) = at_most_refl m
  Last-head m r rules (there le rest) = le

  -- A rule that another beats may be put behind it.
  Last-skip :
      (m best r : PolicyRule V) (rules : List (PolicyRule V))
      → is_at_most best r ≡ false
      → Last m (best ∷ rules)
      → Last m (best ∷ r ∷ rules)
  Last-skip m _ r rules down (here after) = here (down, after)
  Last-skip m best r rules down (there le rest) =
      there le (there (at_most_trans r best m (at_most_total best r down) le) rest)

  max_from-Last :
      (best : PolicyRule V) (rules : List (PolicyRule V))
      → Last (max_from best rules) (best ∷ rules)
  unfolding max_from
  max_from-Last best [] = here tt
  max_from-Last best (r ∷ rules) = elim (Bool-cases (is_at_most best r)) [
    | inl up ↦
        let rest = max_from-Last r rules in
        let m = max_from r rules in
        subst (λ x. Last x (best ∷ r ∷ rules)) (sym (step-up best r rules up))
          (there (at_most_trans best r m up (Last-head m r rules rest)) rest)
    | inr down ↦
        subst (λ x. Last x (best ∷ r ∷ rules)) (sym (step-down best r rules down))
          (Last-skip (max_from best rules) best r rules down (max_from-Last best rules))
  ]

module _ {V : Type 0} (as_str : V → Option Text) (to_string : V → Text) (target : Text)
    (facts : PolicyFacts) where
  abbrev fits : PolicyRule V → Bool
  fits r = is_matching as_str to_string target facts r

  abbrev Fits : PolicyRule V → Type 0
  Fits r = Matches as_str to_string target facts r

  unfit : (s : PolicyRule V) → fits s ≡ false → Fits s → ⊥
  unfit s n m = ground (arith, (is_matching-Matches as_str to_string target facts s).1 m)

  keep-none : (rules : List (PolicyRule V)) → keep fits rules ≡ [] → All (λ s. Fits s → ⊥) rules
  keep-none [] e = tt
  keep-none (s ∷ rules) e = elim (Bool-cases (fits s)) [
    | inl y ↦ absurd (cc (rw y at e))
    | inr n ↦ (unfit s n, keep-none rules (rw n at e))
  ]

  -- If no rule is chosen, none matches the target and the facts. A chosen rule is one of the policy's
  -- and matches; no matching rule before it beats it, and it beats every matching rule after it. A
  -- rule matches where its pattern matches the target and each of its conditions names a known fact
  -- with the text that it expects. A rule beats another by its effect, where denying is stronger
  -- than asking for approval and both than allowing, or by a higher priority with the same effect.
  pub evaluate_matching_rule_lem :
      (rules : List (PolicyRule V))
      → ((evaluate_matching_rule as_str to_string rules target facts ≡ none)
          × All (λ s. Matches as_str to_string target facts s → ⊥) rules)
        ⊎ ((r : PolicyRule V) × (evaluate_matching_rule as_str to_string rules target facts
              ≡ some r)
            × Matches as_str to_string target facts r
            × Placed
                (λ s. Matches as_str to_string target facts s → Beats s r → ⊥)
                (λ s. Matches as_str to_string target facts s → Beats r s)
                r
                rules)
  unfolding evaluate_matching_rule max_rule
  evaluate_matching_rule_lem rules = chosen (keep fits rules) refl
    where
      chosen :
          (left : List (PolicyRule V))
          → keep fits rules ≡ left
          → ((evaluate_matching_rule as_str to_string rules target facts ≡ none)
              × All (λ s. Fits s → ⊥) rules)
            ⊎ ((r : PolicyRule V) × (evaluate_matching_rule as_str to_string rules target facts
                  ≡ some r)
                × Fits r
                × Placed (λ s. Fits s → Beats s r → ⊥) (λ s. Fits s → Beats r s) r rules)
      chosen [] e = inl (ap max_rule e, keep-none rules e)
      chosen (k ∷ ks) e =
          let r = max_from k ks in
          let last : Last r (keep fits rules) = subst (Last r) (sym e) (max_from-Last k ks) in
          inr (
            r,
            ap max_rule e,
            (is_matching-Matches as_str to_string target facts r).0 (
                Placed-All (λ s. is_at_most s r ≡ true) (λ s. is_at_most r s ≡ false)
                  (λ s. fits s ≡ true) r (keep fits rules) (keep-fits fits rules) last),
            Placed-keep fits (λ s. is_at_most s r ≡ true) (λ s. is_at_most r s ≡ false)
                (λ s. Fits s → Beats s r → ⊥) (λ s. Fits s → Beats r s) r rules
                (λ s _ le _ b. ground (arith, Beats-not_at_most s r b))
                (λ s _ lt _. not_at_most-Beats r s lt)
                (λ s n. (λ m _. unfit s n m, λ m. absurd (unfit s n m))) last,
          )
