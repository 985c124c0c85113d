-- ===== src/Agent/Merge/Clashes.antt =====
-- When `merge_state` of crates/fusion-agent-state/src/lib.rs fails, and what it returns otherwise.
use fusion_router.Prelude.{
  ◌≡◌, refl, sym, subst, ◌∙◌, ◌↔◌, Bool, true, false, Option, some, arith, Text, text_beq,
  text_beq_iff, text_eq, Bool-cases, inl, inr,
}
use fusion_router.Json.{
  Json, null, boolean, number, text, array, object, Members, end, member, get, set, delete,
  has_keys_once, contains_key, get-present,
}
use fusion_router.Agent.Merge.{Result, ok, err, StateError, merge_members, as_object, merge_state}
use fusion_router.Agent.Merge.Laws.{
  is_object, Merges, inserted, replaced, merged, Result-cases, merge-new, merge-both, base-cases,
  once-object, merge-Done, Done-Merges,
}

-- Somewhere the patch has an object and the base a value that is none.
pub data Clash : Members → Members → Type 0 where
  here :
      {patch base : Members} (k : Text) {inner : Members} {leaf : Json}
      → get k patch ≡ some (object inner)
      → get k base ≡ some leaf
      → is_object leaf ≡ false
      → Clash patch base
  below :
      {patch base : Members} (k : Text) {inner base_inner : Members}
      → get k patch ≡ some (object inner)
      → get k base ≡ some (object base_inner)
      → Clash inner base_inner
      → Clash patch base

get-tail :
    (k j : Text) (v w : Json) (patch : Members)
    → contains_key k patch ≡ false
    → get j patch ≡ some w
    → get j (member k v patch) ≡ some w
unfolding get
get-tail k j v w patch fresh e = elim (Bool-cases (text_beq k j)) [
  | inl same ↦
      let there = get-present j w patch e in
      let gone = subst (λ i. contains_key i patch ≡ false) ((text_beq_iff k j).0 same) fresh in
      absurd (cc (there, gone))
  | inr other ↦ rw (get, other) e
]

get-head : (k : Text) (v : Json) (patch : Members) → get k (member k v patch) ≡ some v
unfolding get
get-head k v patch = ground (arith, text_beq_iff k k)

Clash-tail :
    (k : Text) (v : Json) (patch base : Members)
    → contains_key k patch ≡ false
    → Clash patch base
    → Clash (member k v patch) base
Clash-tail k v patch base fresh (here j {inner} p b f) =
    here j (get-tail k j v (object inner) patch fresh p) b f
Clash-tail k v patch base fresh (below j {inner} p b c) =
    below j (get-tail k j v (object inner) patch fresh p) b c

merge-Clash :
    (patch base acc : Members) (e : StateError)
    → has_keys_once patch ≡ true
    → merge_members patch base acc ≡ err e
    → Clash patch base
unfolding merge_members has_keys_once
merge-Clash end base acc e once h = absurd (cc h)
merge-Clash (member k null patch) base acc e once h =
    Clash-tail k null patch base (ground arith)
      (merge-Clash patch base (delete k acc) e (ground arith) h)
merge-Clash (member k (boolean b) patch) base acc e once h =
    Clash-tail k (boolean b) patch base (ground arith)
      (merge-Clash patch base (set k (boolean b) acc) e (ground arith) h)
merge-Clash (member k (number n) patch) base acc e once h =
    Clash-tail k (number n) patch base (ground arith)
      (merge-Clash patch base (set k (number n) acc) e (ground arith) h)
merge-Clash (member k (text s) patch) base acc e once h =
    Clash-tail k (text s) patch base (ground arith)
      (merge-Clash patch base (set k (text s) acc) e (ground arith) h)
merge-Clash (member k (array xs) patch) base acc e once h =
    Clash-tail k (array xs) patch base (ground arith)
      (merge-Clash patch base (set k (array xs) acc) e (ground arith) h)
merge-Clash (member k (object inner) patch) base acc e once h =
    let apart = once-object k inner patch once in
    elim (base-cases (get k base)) [
      | inl absent ↦ Clash-tail k (object inner) patch base apart.1 (
          merge-Clash patch base (set k (object inner) acc) e apart.2
            (sym (merge-new k inner patch base acc absent) ∙ h))
      | inr (inl (bi, there)) ↦ elim (Result-cases (merge_members inner bi bi)) [
        | inl (rec, r) ↦ Clash-tail k (object inner) patch base apart.1 (
            merge-Clash patch base (set k (object rec) acc) e apart.2
              (sym (merge-both k inner patch base acc bi rec there r) ∙ h))
        | inr (error, fails) ↦
            below k (get-head k (object inner) patch) there
              (merge-Clash inner bi bi error apart.0 fails)
      ]
      | inr (inr (leaf, there, flat)) ↦ here k (get-head k (object inner) patch) there flat
    ]

-- The rules allow no object over a leaf.
Merges-object :
    (o : Option Json) (inner : Members) (x : Option Json)
    → Merges o (some (object inner)) x
    → (leaf : Json) → o ≡ some leaf
    → is_object leaf ≡ true
Merges-object o inner x inserted leaf e = absurd (cc e)
Merges-object o inner x (replaced p) leaf e = absurd (cc p)
Merges-object o inner x (merged f) leaf e = ground arith

Merges-inner :
    (o : Option Json) (inner bi : Members) (x : Option Json)
    → Merges o (some (object inner)) x
    → o ≡ some (object bi)
    → (k : Text) → (y : Option Json) × Merges (get k bi) (get k inner) y
Merges-inner o inner bi x inserted e k = absurd (cc e)
Merges-inner o inner bi x (replaced p) e k = absurd (cc p)
Merges-inner o inner bi x (merged {b} {p} {m} f) e k =
    (get k m, subst (λ c. Merges (get k c) (get k inner) (get k m)) (cc e) (f k))

Merges-Clash :
    (patch base : Members)
    → Clash patch base
    → ((k : Text) → (x : Option Json) × Merges (get k base) (get k patch) x)
    → ⊥
Merges-Clash patch base (here k {inner} {leaf} p b f) rules =
    let one = rules k in
    let at = subst (λ q. Merges (get k base) q one.0) p one.1 in
    absurd (cc (Merges-object _ inner one.0 at leaf b, f))
Merges-Clash patch base (below k {inner} {base_inner} p b c) rules =
    let one = rules k in
    let at = subst (λ q. Merges (get k base) q one.0) p one.1 in
    let at_both = subst (λ o. Merges o (some (object inner)) one.0) b at in
    Merges-Clash inner base_inner c (Merges-inner _ inner base_inner one.0 at_both refl)

as_object-ok :
    (r : Result Members) (v : Json)
    → as_object r ≡ ok v
    → (m : Members) × (r ≡ ok m) × (v ≡ object m)
as_object-ok (ok m) v h = (m, refl, cc h)
as_object-ok (err e) v h = absurd (cc h)

-- A merge of a patch whose objects have each key once follows the rules, at every depth: a key that
-- the patch lacks keeps its value, a null deletes it, an object over an object is merged, an object
-- where nothing is comes in as it is, and any other value replaces what is there.
pub merge_follows_rules :
    (base patch : Members) (v : Json)
    → has_keys_once patch ≡ true
    → merge_state (object base) (object patch) ≡ ok v
    → Merges (some (object base)) (some (object patch)) (some v)
unfolding merge_state
merge_follows_rules base patch v once h =
    let (m, r, e) = as_object-ok (merge_members patch base base) v h in
    subst (λ w. Merges (some (object base)) (some (object patch)) (some w)) (sym e)
      (merged (λ i. Done-Merges i patch base m (merge-Done patch base base m once r i)))

abbrev pub fails : Result Json → Bool
fails (ok v) = false
fails (err e) = true

-- It fails exactly if somewhere, at keys that lead through objects of both, the patch has an object
-- where the base has a value that is none.
pub merge_fails_on_Clash :
    (base patch : Members)
    → has_keys_once patch ≡ true
    → (fails (merge_state (object base) (object patch)) ≡ true) ↔ Clash patch base
unfolding merge_state
merge_fails_on_Clash base patch once = elim (Result-cases (merge_members patch base base)) [
  | inl (m, r) ↦ rw r (
    λ h. absurd (cc h),
    λ c. absurd (
        Merges-Clash patch base c
          (λ k. (get k m, Done-Merges k patch base m (merge-Done patch base base m once r k)))),
  )
  | inr (e, r) ↦ rw r (λ h. merge-Clash patch base base e once r, λ c. refl)
]
