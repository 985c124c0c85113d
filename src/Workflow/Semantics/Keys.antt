-- ===== src/Workflow/Semantics/Keys.antt =====
-- What `scan_for_provider_keys` of crates/fusion-ir/src/validate.rs finds.
use fusion_router.Prelude.{
  ◌≡◌, ◌↔◌, refl, Bool, true, false, List, [], ◌∷◌, ◌++◌, Text, text_eq, if◌then◌else◌, Bool-cases,
  inl, inr, append-none,
}
use fusion_router.Prelude.Sets.{contains}
use fusion_router.Json.{
  Json, null, boolean, number, text, array, object, Elements, nil, element, Members, end, member,
}
use fusion_router.Workflow.{NodeId}
use fusion_router.Workflow.Semantics.{
  reserved_provider_keys, scan_for_provider_keys, scan_members, scan_elements,
}

-- A reserved key stands somewhere in a value.
mutual
  pub data Reserved : Json → Type 0 where
    in_object : {ms : Members} → ReservedMember ms → Reserved (object ms)
    in_array : {items : Elements} → ReservedElement items → Reserved (array items)

  pub data ReservedMember : Members → Type 0 where
    key :
        {k : Text} {v : Json} {ms : Members}
        → contains reserved_provider_keys k ≡ true
        → ReservedMember (member k v ms)
    inside : {k : Text} {v : Json} {ms : Members} → Reserved v → ReservedMember (member k v ms)
    later :
        {k : Text} {v : Json} {ms : Members} → ReservedMember ms → ReservedMember (member k v ms)

  pub data ReservedElement : Elements → Type 0 where
    item : {v : Json} {items : Elements} → Reserved v → ReservedElement (element v items)
    rest : {v : Json} {items : Elements} → ReservedElement items → ReservedElement (element v items)

own-clean {ℓ} :
    {A : Type ℓ} (b : Bool) (x : A) (xs : List A)
    → (if b then x ∷ [] else []) ++ xs ≡ []
    → b ≡ true
    → ⊥
own-clean true x xs h e = cc h
own-clean false x xs h e = cc e

mutual
  unfolding scan_for_provider_keys

  scan-clean : (j : Json) (path : NodeId) → scan_for_provider_keys j path ≡ [] → Reserved j → ⊥
  scan-clean (object ms) path h (in_object r) = members-clean ms path h r
  scan-clean (array items) path h (in_array r) = elements-clean items path h r
  scan-clean null path h r = elim r [ ]
  scan-clean (boolean _) path h r = elim r [ ]
  scan-clean (number _) path h r = elim r [ ]
  scan-clean (text _) path h r = elim r [ ]

  members-clean : (ms : Members) (path : NodeId) → scan_members ms path ≡ [] → ReservedMember ms → ⊥
  members-clean (member k v ms) path h (key r) =
      absurd (own-clean (contains reserved_provider_keys k) _ _ h r)
  members-clean (member k v ms) path h (inside r) =
      scan-clean v path ((append-none _ _).0 ((append-none _ _).0 h).1).0 r
  members-clean (member k v ms) path h (later r) =
      members-clean ms path ((append-none _ _).0 ((append-none _ _).0 h).1).1 r
  members-clean end path h r = elim r [ ]

  elements-clean :
      (items : Elements) (path : NodeId) → scan_elements items path ≡ [] → ReservedElement items → ⊥
  elements-clean (element v items) path h (item r) = scan-clean v path ((append-none _ _).0 h).0 r
  elements-clean (element v items) path h (rest r) =
      elements-clean items path ((append-none _ _).0 h).1 r
  elements-clean nil path h r = elim r [ ]

mutual
  unfolding scan_for_provider_keys

  clean-scan : (j : Json) (path : NodeId) → (Reserved j → ⊥) → scan_for_provider_keys j path ≡ []
  clean-scan (object ms) path h = clean-members ms path (λ r. h (in_object r))
  clean-scan (array items) path h = clean-elements items path (λ r. h (in_array r))
  clean-scan null path h = refl
  clean-scan (boolean _) path h = refl
  clean-scan (number _) path h = refl
  clean-scan (text _) path h = refl

  clean-members :
      (ms : Members) (path : NodeId) → (ReservedMember ms → ⊥) → scan_members ms path ≡ []
  clean-members end path h = refl
  clean-members (member k v ms) path h = elim (Bool-cases (contains reserved_provider_keys k)) [
    | inl reserved ↦ absurd (h (key reserved))
    | inr free ↦ (append-none _ _).1 (
      rw free refl,
      (append-none _ _).1
          (clean-scan v path (λ r. h (inside r)), clean-members ms path (λ r. h (later r))),
    )
  ]

  clean-elements :
      (items : Elements) (path : NodeId)
      → (ReservedElement items → ⊥)
      → scan_elements items path ≡ []
  clean-elements nil path h = refl
  clean-elements (element v items) path h =
      (append-none _ _).1
        (clean-scan v path (λ r. h (item r)), clean-elements items path (λ r. h (rest r)))

-- The scan of a value finds no issue exactly if no reserved key stands in it, at any depth.
pub scan_for_provider_keys_lem :
    (j : Json) (path : NodeId) → (scan_for_provider_keys j path ≡ []) ↔ (Reserved j → ⊥)
scan_for_provider_keys_lem j path = (scan-clean j path, clean-scan j path)
