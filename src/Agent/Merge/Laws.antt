-- ===== src/Agent/Merge/Laws.antt =====
-- What `merge_state` of crates/fusion-agent-state/src/lib.rs puts under each key, and when it fails.
use fusion_router.Prelude.{
  ◌≡◌, refl, sym, subst, ap, ◌∙◌, ◌⊎◌, Bool, true, false, not, ◌&&◌, Option, none, some, arith,
  Text, text_beq, text_beq_iff, text_eq, ◌==◌, if◌then◌else◌, Bool-cases, Option-cases, inl, inr,
}
use fusion_router.Json.{
  Json, null, boolean, number, text, array, object, Members, end, member, get, set, delete, get-set,
  get-delete, has_keys_once, contains_key, absent-contains_key,
}
use fusion_router.Agent.Merge.{Result, ok, err, StateError, merge_members, ambiguous_merge, type_of}

abbrev pub is_plain : Json → Bool
is_plain null = false
is_plain (object _) = false
is_plain _ = true

-- The rules of the merge for one key: what the base, the patch and the result hold there.
pub data Merges : Option Json → Option Json → Option Json → Type 0 where
  unchanged : {b : Option Json} → Merges b none b
  deleted : {b : Option Json} → Merges b (some null) none
  inserted : {m : Members} → Merges none (some (object m)) (some (object m))
  replaced : {b : Option Json} {v : Json} → is_plain v ≡ true → Merges b (some v) (some v)
  merged :
      {b p m : Members}
      → ((k : Text) → Merges (get k b) (get k p) (get k m))
      → Merges (some (object b)) (some (object p)) (some (object m))

-- What the loop has done to the key `i` when it ends.
abbrev Done : Text → Members → Members → Members → Members → Type 0
Done i patch base acc m =
    ((contains_key i patch ≡ false) → get i m ≡ get i acc)
    × ((v : Json) → get i patch ≡ some v → Merges (get i base) (some v) (get i m))

Done-step :
    (k i : Text) (v : Json) (x : Option Json) (patch base acc acc1 m : Members)
    → contains_key k patch ≡ false
    → Merges (get k base) (some v) x
    → ((j : Text) → get j acc1 ≡ (if k == j then x else get j acc))
    → Done i patch base acc1 m
    → Done i (member k v patch) base acc m
unfolding get contains_key
Done-step k i v x patch base acc acc1 m fresh here step rest = elim (Bool-cases (text_beq k i)) [
  | inl same ↦
      let e : k ≡ i = (text_beq_iff k i).0 same in
      let kept : get i m ≡ x =
        rest.0 (subst (λ j. contains_key j patch ≡ false) e fresh) ∙ ground (arith, step i) in
      (
        λ h. ground arith,
        λ w h.
            let at : Merges (get i base) (some v) x =
              subst (λ j. Merges (get j base) (some v) x) e here in
            subst (λ y. Merges (get i base) y (get i m)) (ground arith)
              (subst (λ y. Merges (get i base) (some v) y) (sym kept) at),
      )
  | inr other ↦
      (λ h. rest.0 (ground arith) ∙ ground (arith, step i), λ w h. rest.1 w (ground arith))
]

pub Result-cases {ℓ} :
    {A : Type ℓ} (r : Result A) → ((a : A) × (r ≡ ok a)) ⊎ ((e : StateError) × (r ≡ err e))
Result-cases (ok a) = inl (a, refl)
Result-cases (err e) = inr (e, refl)

abbrev pub is_object : Json → Bool
is_object (object _) = true
is_object _ = false

-- What the loop does with an object in the patch.
module _ (k : Text) (inner patch base acc : Members) where
  pub merge-new :
      get k base ≡ none
      → merge_members (member k (object inner) patch) base acc
        ≡ merge_members patch base (set k (object inner) acc)
  unfolding merge_members
  merge-new e = rw (merge_members, e) refl

  pub merge-both :
      (bi rec : Members)
      → get k base ≡ some (object bi)
      → merge_members inner bi bi ≡ ok rec
      → merge_members (member k (object inner) patch) base acc
        ≡ merge_members patch base (set k (object rec) acc)
  unfolding merge_members
  merge-both bi rec e f = rw (merge_members, e, f) refl

  pub merge-fails :
      (bi : Members) (error : StateError)
      → get k base ≡ some (object bi)
      → merge_members inner bi bi ≡ err error
      → merge_members (member k (object inner) patch) base acc ≡ err error
  unfolding merge_members
  merge-fails bi error e f = rw (merge_members, e, f) refl

  pub merge-leaf :
      (leaf : Json)
      → get k base ≡ some leaf
      → is_object leaf ≡ false
      → merge_members (member k (object inner) patch) base acc
        ≡ err (ambiguous_merge k (type_of leaf))
  unfolding merge_members
  merge-leaf null e f = rw (merge_members, e) refl
  merge-leaf (boolean b) e f = rw (merge_members, e) refl
  merge-leaf (number n) e f = rw (merge_members, e) refl
  merge-leaf (text s) e f = rw (merge_members, e) refl
  merge-leaf (array xs) e f = rw (merge_members, e) refl
  merge-leaf (object ms) e f = absurd (cc f)

-- What stands at a key of the base: nothing, an object or a leaf.
pub base-cases :
    (o : Option Json)
    → (o ≡ none)
      ⊎ ((ms : Members) × (o ≡ some (object ms)))
      ⊎ ((leaf : Json) × (o ≡ some leaf) × (is_object leaf ≡ false))
base-cases none = inl refl
base-cases (some (object ms)) = inr (inl (ms, refl))
base-cases (some null) = inr (inr (null, refl, refl))
base-cases (some (boolean b)) = inr (inr (boolean b, refl, refl))
base-cases (some (number n)) = inr (inr (number n, refl, refl))
base-cases (some (text s)) = inr (inr (text s, refl, refl))
base-cases (some (array xs)) = inr (inr (array xs, refl, refl))

pub err-not-ok : {e : StateError} {m : Members} → err e ≡ ok m → ⊥
err-not-ok h = cc

pub Done-Merges :
    (i : Text) (patch base m : Members)
    → Done i patch base base m
    → Merges (get i base) (get i patch) (get i m)
Done-Merges i patch base m h = elim (Option-cases (get i patch)) [
  | inl absent ↦
      subst (λ p. Merges (get i base) p (get i m)) (sym absent)
        (subst (λ x. Merges (get i base) none x) (sym (h.0 (absent-contains_key i patch absent)))
          unchanged)
  | inr (v, there) ↦ subst (λ p. Merges (get i base) p (get i m)) (sym there) (h.1 v there)
]

once-split : (a b c : Bool) → (a && (not b && c)) ≡ true → (a ≡ true) × (b ≡ false) × (c ≡ true)
once-split a b c h = ground arith

pub once-object :
    (k : Text) (inner patch : Members)
    → has_keys_once (member k (object inner) patch) ≡ true
    → (has_keys_once inner ≡ true) × (contains_key k patch ≡ false) × (has_keys_once patch ≡ true)
unfolding has_keys_once
once-object k inner patch h =
    once-split (has_keys_once inner) (contains_key k patch) (has_keys_once patch) h

pub merge-Done :
    (patch base acc m : Members)
    → has_keys_once patch ≡ true
    → merge_members patch base acc ≡ ok m
    → (i : Text) → Done i patch base acc m
unfolding merge_members has_keys_once get contains_key
merge-Done end base acc m once h i = (λ _. ap (get i) (ok-injective h), λ v e. absurd (cc e))
  where
    ok-injective : {a b : Members} → ok a ≡ ok b → b ≡ a
    ok-injective e = cc
merge-Done (member k null patch) base acc m once h i =
    Done-step k i null none patch base acc (delete k acc) m (ground arith) deleted
      (λ j. get-delete k j acc) (merge-Done patch base (delete k acc) m (ground arith) h i)
merge-Done (member k (boolean b) patch) base acc m once h i =
    Done-step k i (boolean b) _ patch base acc (set k (boolean b) acc) m (ground arith)
      (replaced refl) (λ j. get-set k j (boolean b) acc)
      (merge-Done patch base (set k (boolean b) acc) m (ground arith) h i)
merge-Done (member k (number n) patch) base acc m once h i =
    Done-step k i (number n) _ patch base acc (set k (number n) acc) m (ground arith)
      (replaced refl) (λ j. get-set k j (number n) acc)
      (merge-Done patch base (set k (number n) acc) m (ground arith) h i)
merge-Done (member k (text s) patch) base acc m once h i =
    Done-step k i (text s) _ patch base acc (set k (text s) acc) m (ground arith) (replaced refl)
      (λ j. get-set k j (text s) acc)
      (merge-Done patch base (set k (text s) acc) m (ground arith) h i)
merge-Done (member k (array xs) patch) base acc m once h i =
    Done-step k i (array xs) _ patch base acc (set k (array xs) acc) m (ground arith)
      (replaced refl) (λ j. get-set k j (array xs) acc)
      (merge-Done patch base (set k (array xs) acc) m (ground arith) h i)
merge-Done (member k (object inner) patch) base acc m once h i =
    let apart = once-object k inner patch once in
    elim (base-cases (get k base)) [
      | inl absent ↦
          let rest =
            merge-Done patch base (set k (object inner) acc) m apart.2
              (sym (merge-new k inner patch base acc absent) ∙ h) i in
          Done-step k i (object inner) _ patch base acc (set k (object inner) acc) m apart.1
            (subst (λ b. Merges b (some (object inner)) (some (object inner))) (sym absent)
              inserted)
            (λ j. get-set k j (object inner) acc) rest
      | inr (inl (bi, there)) ↦ elim (Result-cases (merge_members inner bi bi)) [
        | inl (rec, e) ↦
            let deep : (j : Text) → Done j inner bi bi rec = merge-Done inner bi bi rec apart.0 e in
            let rest =
              merge-Done patch base (set k (object rec) acc) m apart.2
                (sym (merge-both k inner patch base acc bi rec there e) ∙ h) i in
            Done-step k i (object inner) _ patch base acc (set k (object rec) acc) m apart.1
              (subst (λ b. Merges b (some (object inner)) (some (object rec))) (sym there)
                (merged (λ j. Done-Merges j inner bi rec (deep j))))
              (λ j. get-set k j (object rec) acc) rest
        | inr (e, fails) ↦
            absurd (err-not-ok (sym (merge-fails k inner patch base acc bi e there fails) ∙ h))
      ]
      | inr (inr (leaf, there, flat)) ↦
          absurd (err-not-ok (sym (merge-leaf k inner patch base acc leaf there flat) ∙ h))
    ]
