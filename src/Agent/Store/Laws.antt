-- ===== src/Agent/Store/Laws.antt =====
-- What the store of crates/fusion-agent-state/src/lib.rs holds after any commits.
use fusion_router.Prelude.{
  ◌≡◌, refl, sym, subst, ap, ◌∙◌, inl, inr, Bool, true, List, [], ◌∷◌, Option, none, some, arith,
  all, Text, text_eq,
}
use fusion_router.Prelude.Sets.{contains}
use fusion_router.Json.{Json, object, Members, end, member, get, contains_key}
use fusion_router.Agent.Merge.{StateError, Result, ok, err, merge_members, as_object, merge_state}
use fusion_router.Agent.Merge.Laws.{Result-cases}
use fusion_router.Agent.Schema.{
  validate_against_schema, schema_type, objects, required, validate_value,
}
use fusion_router.Agent.Schema.Laws.{validate-required}
use fusion_router.Agent.Store.{
  SkillSpec, InMemoryStateStore, StateStore, is_object, checked_new, new, replace_if, commit_merged,
  commit_patch, in_memory,
}

-- What the loop relies on: a commit puts the merge of the patch into the store, or leaves it alone.
pub record Commits {ℓ} (S : Type ℓ) ⦃s : StateStore S⦄ : Type ℓ where
  pub commit_ok :
      (store : S) (patch v : Json)
      → (s.commit store patch).0 ≡ ok v
      → (merge_state (s.load store) patch ≡ ok v) × (s.load (s.commit store patch).1 ≡ v)
  pub commit_err :
      (store : S) (patch : Json) (e : StateError)
      → (s.commit store patch).0 ≡ err e
      → s.load (s.commit store patch).1 ≡ s.load store

replace-ok :
    (o : Option StateError) (merged v : Json) (store : InMemoryStateStore)
    → (replace_if o merged store).0 ≡ ok v
    → (merged ≡ v) × ((replace_if o merged store).1.state ≡ v)
replace-ok none merged v store h = (cc h, cc h)
replace-ok (some e) merged v store h = absurd (cc h)

replace-err :
    (o : Option StateError) (merged : Json) (store : InMemoryStateStore) (e : StateError)
    → (replace_if o merged store).0 ≡ err e
    → (replace_if o merged store).1 ≡ store
replace-err none merged store e h = absurd (cc h)
replace-err (some _) merged store e h = refl

merged-ok :
    (r : Result Json) (store : InMemoryStateStore) (v : Json)
    → (commit_merged r store).0 ≡ ok v
    → (r ≡ ok v) × ((commit_merged r store).1.state ≡ v)
merged-ok (err e) store v h = absurd (cc h)
merged-ok (ok merged) store v h =
    let one = replace-ok (validate_against_schema merged store.skill.schema) merged v store h in
    (cc (one.0), one.1)

merged-err :
    (r : Result Json) (store : InMemoryStateStore) (e : StateError)
    → (commit_merged r store).0 ≡ err e
    → (commit_merged r store).1 ≡ store
merged-err (err _) store e h = refl
merged-err (ok merged) store e h =
    replace-err (validate_against_schema merged store.skill.schema) merged store e h

pub in_memory-Commits : Commits InMemoryStateStore
unfolding commit_patch
in_memory-Commits = record {
  commit_ok = λ store patch v. merged-ok (merge_state store.state patch) store v;
  commit_err =
      λ store patch e h. ap (λ x. x.state) (merged-err (merge_state store.state patch) store e h);
}

-- The state is an object that the skill's schema accepts.
pub record IsSound (skill : SkillSpec) (store : InMemoryStateStore) : Type 0 where
  pub same_skill : store.skill ≡ skill
  pub accepted : validate_against_schema store.state skill.schema ≡ none
  pub stays_object : is_object store.state ≡ true

abbrev has_object : Result Json → Bool
has_object (ok v) = is_object v
has_object (err e) = true

merge-is_object :
    (base patch v : Json)
    → is_object base ≡ true
    → is_object patch ≡ true
    → merge_state base patch ≡ ok v
    → is_object v ≡ true
unfolding merge_state
merge-is_object (object b) (object p) v hb hp h = as_object-is_object (merge_members p b b) v h
  where
    as_object-is_object : (r : Result Members) (v : Json) → as_object r ≡ ok v → is_object v ≡ true
    as_object-is_object (ok m) v h = sym (ap has_object h)
    as_object-is_object (err e) v h = absurd (cc h)
merge-is_object b p v hb hp h = absurd cc

replace-IsSound :
    (o : Option StateError) (merged : Json) (skill : SkillSpec) (store : InMemoryStateStore)
    → validate_against_schema merged store.skill.schema ≡ o
    → is_object merged ≡ true
    → IsSound skill store
    → IsSound skill (replace_if o merged store).1
replace-IsSound (some e) merged skill store c m h = h
replace-IsSound none merged skill store c m h = record {
  same_skill = h.same_skill;
  accepted = sym (ap (λ k. validate_against_schema merged k.schema) h.same_skill) ∙ c;
  stays_object = m;
}

commit-IsSound :
    (skill : SkillSpec) (store : InMemoryStateStore) (patch : Json)
    → is_object patch ≡ true
    → IsSound skill store
    → IsSound skill (commit_patch store patch).1
unfolding commit_patch
commit-IsSound skill store patch p h = elim (Result-cases (merge_state store.state patch)) [
  | inl (merged, e) ↦
      subst (λ r. IsSound skill (commit_merged r store).1) (sym e)
        (replace-IsSound _ merged skill store refl
          (merge-is_object store.state patch merged h.stays_object p e) h)
  | inr (error, e) ↦ subst (λ r. IsSound skill (commit_merged r store).1) (sym e) h
]

-- The store after commits, refused ones included, the last one first.
abbrev pub after : List Json → InMemoryStateStore → InMemoryStateStore
after [] store = store
after (patch ∷ patches) store = (commit_patch (after patches store) patch).1

checked_new-IsSound :
    (a b : Option StateError) (skill : SkillSpec) (initial : Json) (store : InMemoryStateStore)
    → checked_new a b skill initial ≡ ok store
    → validate_against_schema initial skill.schema ≡ b
    → is_object initial ≡ true
    → IsSound skill store
checked_new-IsSound none none skill initial store h b i =
    subst (IsSound skill) (cc h) (record { same_skill = refl; accepted = b; stays_object = i })
checked_new-IsSound (some e) b skill initial store h _ i = absurd (cc h)
checked_new-IsSound none (some e) skill initial store h _ i = absurd (cc h)

after-IsSound :
    (skill : SkillSpec) (patches : List Json) (store : InMemoryStateStore)
    → all is_object patches ≡ true
    → IsSound skill store
    → IsSound skill (after patches store)
after-IsSound skill [] store p h = h
after-IsSound skill (patch ∷ patches) store p h =
    commit-IsSound skill (after patches store) patch (ground arith)
      (after-IsSound skill patches store (ground arith) h)

-- A store that was opened with an object as its state has, after any commits of object patches,
-- refused ones included, a state that is an object and that the skill's schema accepts.
pub state_stays-IsSound :
    (skill : SkillSpec) (initial : Json) (store : InMemoryStateStore) (patches : List Json)
    → new skill initial ≡ ok store
    → is_object initial ≡ true
    → all is_object patches ≡ true
    → IsSound skill (after patches store)
unfolding new
state_stays-IsSound skill initial store patches h i p =
    after-IsSound skill patches store p (checked_new-IsSound _ _ skill initial store h refl i)

schema-value :
    (value : Json) (s : Members) (name : Text)
    → schema_type s ≡ objects
    → validate_against_schema value (object s) ≡ none
    → validate_value value (object s) [] ≡ none
unfolding validate_against_schema schema_type get
schema-value value end name t h = absurd (cc t)
schema-value value (member k v s) name t h = h

-- A key that the schema of an object requires is never lost.
pub required_stays :
    (skill : SkillSpec) (store : InMemoryStateStore) (s obj : Members) (name : Text)
    → IsSound skill store
    → skill.schema ≡ object s
    → schema_type s ≡ objects
    → contains (required s) name ≡ true
    → store.state ≡ object obj
    → contains_key name obj ≡ true
required_stays skill store s obj name h e t r o =
    validate-required s obj [] name t
      (schema-value (object obj) s name t (
        subst (λ v. validate_against_schema v (object s) ≡ none) o
          (subst (λ k. validate_against_schema store.state k ≡ none) e h.accepted)))
      r
