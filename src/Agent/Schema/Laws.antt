-- ===== src/Agent/Schema/Laws.antt =====
-- What an accepted state has: crates/fusion-agent-state/src/lib.rs.
use fusion_router.Prelude.{
  ◌≡◌, refl, true, List, [], ◌∷◌, Option, none, some, arith, Text, text_eq, text_beq_iff, ◌==◌,
  Bool-cases, inl, inr, subst,
}
use fusion_router.Prelude.Sets.{contains}
use fusion_router.Json.{object, Members, contains_key}
use fusion_router.Agent.Merge.{StateError}
use fusion_router.Agent.Schema.{
  check_required, and_then, objects, schema_type, required, validate_value,
}

and_then-none : (a b : Option StateError) → and_then a b ≡ none → (a ≡ none) × (b ≡ none)
and_then-none none b h = (refl, h)
and_then-none (some e) b h = absurd (cc h)

check_required-contains :
    (names : List Text) (obj : Members) (path : List Text) (name : Text)
    → check_required names obj path ≡ none
    → contains names name ≡ true
    → contains_key name obj ≡ true
unfolding check_required contains
check_required-contains [] obj path name h m = absurd (cc m)
check_required-contains (n ∷ names) obj path name h m = elim (Bool-cases (contains_key n obj)) [
  | inr absent ↦ absurd (ground arith)
  | inl there ↦ elim (Bool-cases (n == name)) [
    | inl same ↦ subst (λ k. contains_key k obj ≡ true) ((text_beq_iff n name).0 same) there
    | inr other ↦ check_required-contains names obj path name (ground arith) (ground arith)
  ]
]

-- An accepted object has every key that its schema requires.
pub validate-required :
    (s obj : Members) (path : List Text) (name : Text)
    → schema_type s ≡ objects
    → validate_value (object obj) (object s) path ≡ none
    → contains (required s) name ≡ true
    → contains_key name obj ≡ true
unfolding validate_value
validate-required s obj path name typed h m =
    let both = rw (validate_value, typed) at h in
    check_required-contains (required s) obj path name (and_then-none _ _ both).0 m
