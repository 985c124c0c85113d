-- ===== src/Compiler/Policy/Matching.antt =====
-- What it means that a rule matches: `evaluate_condition` and `is_matching`.
use fusion_router.Prelude.{
  ◌≡◌, sym, subst, inl, inr, ◌↔◌, true, false, List, [], ◌∷◌, Option, none, some, Text, codes,
  text_eq, text_beq, text_beq_iff, ◌==◌, all, All, arith, if-both, Option-cases, refl,
}
use fusion_router.Compiler.Policy.Pattern.{pattern_matches}
use fusion_router.Compiler.Policy.{
  PolicyCondition, PolicyRule, PolicyFacts, fact, unwrap_or, evaluate_condition, is_matching,
}

module _ {V : Type 0} (as_str : V → Option Text) (to_string : V → Text) where
  -- The text that a condition expects: its value's own text, or the value printed.
  pub data IsText (v : V) : Text → Type 0 where
    own : (t : Text) → as_str v ≡ some t → IsText v t
    printed : as_str v ≡ none → IsText v (to_string v)

  IsText-of : (v : V) → IsText v (unwrap_or (as_str v) (to_string v))
  IsText-of v = elim (Option-cases (as_str v)) [
    | inl never ↦ rw never (printed never)
    | inr (t, e) ↦ rw e (own t e)
  ]

  IsText-unwrap : (v : V) (t : Text) → IsText v t → unwrap_or (as_str v) (to_string v) ≡ t
  IsText-unwrap v t (own _ e) = rw e refl
  IsText-unwrap v _ (printed e) = rw e refl

  -- The fact that the condition names is known and is the text that it expects.
  pub data Holds (facts : PolicyFacts) (c : PolicyCondition V) : Type 0 where
    of_kind :
        (t : Text)
        → c.field ≡ codes "kind"
        → facts.node_kind ≡ some t
        → IsText c.expected t
        → Holds facts c
    of_model : c.field ≡ codes "model" → IsText c.expected facts.model → Holds facts c
    of_strategy : c.field ≡ codes "strategy" → IsText c.expected facts.strategy → Holds facts c
    of_capability :
        (t : Text)
        → c.field ≡ codes "capability"
        → facts.capability ≡ some t
        → IsText c.expected t
        → Holds facts c

  -- The rule's pattern matches the target and all its conditions hold.
  abbrev pub Matches : Text → PolicyFacts → PolicyRule V → Type 0
  Matches target facts r =
      (pattern_matches r.target_pattern target ≡ true) × All (Holds facts) r.conditions

  expected : (v : V) (t : Text) → (t == unwrap_or (as_str v) (to_string v)) ≡ true → IsText v t
  expected v t h = subst (IsText v) (sym ((text_beq_iff t _).0 h)) (IsText-of v)

  compared : (v : V) (t : Text) → IsText v t → (t == unwrap_or (as_str v) (to_string v)) ≡ true
  compared v t h = (text_beq_iff t _).1 (sym (IsText-unwrap v t h))

  fact-Holds :
      (facts : PolicyFacts) (c : PolicyCondition V) (t : Text)
      → IsText c.expected t
      → fact as_str to_string c.field facts ≡ some t
      → Holds facts c
  fact-Holds facts c t h =
      if-both known (c.field == codes "kind") (λ f e. of_kind t (named (codes "kind") f) e h)
        (λ _.
          if-both known (c.field == codes "model")
            (λ f e. of_model (named (codes "model") f) (subst (IsText c.expected) (sym (cc e)) h))
            (λ _.
              if-both known (c.field == codes "strategy")
                (λ f e.
                  of_strategy (named (codes "strategy") f)
                    (subst (IsText c.expected) (sym (cc e)) h))
                (λ _.
                  if-both known (c.field == codes "capability")
                    (λ f e. of_capability t (named (codes "capability") f) e h)
                    (λ _ e. absurd (cc e)))))
    where
      known : Option Text → Type 0
      known x = x ≡ some t → Holds facts c

      named : (field : Text) → (c.field == field) ≡ true → c.field ≡ field
      named field f = (text_beq_iff c.field field).0 f

  Holds-of :
      (facts : PolicyFacts) (c : PolicyCondition V)
      → evaluate_condition as_str to_string facts c ≡ true
      → Holds facts c
  unfolding evaluate_condition
  Holds-of facts c h = elim (Option-cases (fact as_str to_string c.field facts)) [
    | inl never ↦ absurd (ground (arith, never))
    | inr (t, e) ↦ fact-Holds facts c t (expected c.expected t (ground (arith, e))) e
  ]

  -- A condition on a known field is the comparison with its fact.
  at_field :
      (facts : PolicyFacts) (c : PolicyCondition V) (field t : Text)
      → c.field ≡ field
      → fact as_str to_string field facts ≡ some t
      → IsText c.expected t
      → evaluate_condition as_str to_string facts c ≡ true
  unfolding evaluate_condition
  at_field facts c field t f e h =
      subst
        (λ x.
          (elim x [
            | none ↦ false
            | some value ↦ value == unwrap_or (as_str c.expected) (to_string c.expected)
          ])
          ≡ true)
        (sym (subst (λ x. fact as_str to_string x facts ≡ some t) (sym f) e))
        (compared c.expected t h)

  evaluate-Holds :
      (facts : PolicyFacts) (c : PolicyCondition V)
      → Holds facts c
      → evaluate_condition as_str to_string facts c ≡ true
  unfolding text_beq
  evaluate-Holds facts c (of_kind t f e h) = at_field facts c (codes "kind") t f e h
  evaluate-Holds facts c (of_model f h) = at_field facts c (codes "model") facts.model f refl h
  evaluate-Holds facts c (of_strategy f h) =
      at_field facts c (codes "strategy") facts.strategy f refl h
  evaluate-Holds facts c (of_capability t f e h) = at_field facts c (codes "capability") t f e h

  all-Holds :
      (facts : PolicyFacts) (cs : List (PolicyCondition V))
      → (all (evaluate_condition as_str to_string facts) cs ≡ true) ↔ All (Holds facts) cs
  all-Holds facts [] = (λ _. tt, λ _. refl)
  all-Holds facts (c ∷ cs) = (
    λ h. (Holds-of facts c (ground arith), (all-Holds facts cs).0 (ground arith)),
    λ h. ground (arith, evaluate-Holds facts c h.0, (all-Holds facts cs).1 h.1),
  )

  pub is_matching-Matches :
      (target : Text) (facts : PolicyFacts) (r : PolicyRule V)
      → (is_matching as_str to_string target facts r ≡ true) ↔ Matches target facts r
  unfolding is_matching
  is_matching-Matches target facts r = (
    λ h. (ground arith, (all-Holds facts r.conditions).0 (ground arith)),
    λ h. ground (arith, h.0, (all-Holds facts r.conditions).1 h.1),
  )
