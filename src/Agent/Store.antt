-- ===== src/Agent/Store.antt =====
-- The store of the agent's state and its transitions: `StateStore`, `InMemoryStateStore` and
-- `apply_transition` of crates/fusion-agent-state/src/lib.rs.
pub mod Laws
use fusion_router.Prelude.{
  ℕ, ◌+◌, ◌*◌, ◌≡◌, Bool, true, false, ◌&&◌, ◌||◌, List, [], ◌∷◌, Option, none, some, Text, nat_beq,
  ltb, leb, all, if◌then◌else◌,
}
use fusion_router.Json.{Json, null, object, Members, end}
use fusion_router.Agent.Merge.{
  StateError, not_an_object, instructions_too_large, instructions_empty, Result, ok, err,
  merge_state,
}
use fusion_router.Agent.Schema.{validate_against_schema}

pub record SkillSpec : Type 0 where
  pub schema : Json
  pub instructions : Text
  pub version : Text

-- `str::len`: the bytes of the text in UTF-8.
abbrev pub byte_len : Text → ℕ
byte_len [] = 0
byte_len (c ∷ s) =
    (if ltb c 128 then 1 else if ltb c 2048 then 2 else if ltb c 65536 then 3 else 4) + byte_len s

-- `char::is_whitespace`
abbrev pub is_whitespace : ℕ → Bool
is_whitespace c =
    (leb 9 c && leb c 13)
    || nat_beq c 32
    || nat_beq c 133
    || nat_beq c 160
    || nat_beq c 5760
    || (leb 8192 c && leb c 8202)
    || nat_beq c 8232
    || nat_beq c 8233
    || nat_beq c 8239
    || nat_beq c 8287
    || nat_beq c 12288

abbrev pub max_instructions_bytes : ℕ
max_instructions_bytes = 32 * 1024

unfoldable pub validate : SkillSpec → Option StateError
validate skill =
    if ltb max_instructions_bytes (byte_len skill.instructions)
    then some instructions_too_large
    else if all is_whitespace skill.instructions
    then some instructions_empty
    else none

abbrev pub is_object : Json → Bool
is_object (object _) = true
is_object _ = false

-- `ExecutionState::new` and `StatePatch::new`, which hold their value alone.
abbrev pub new_value : Json → Result Json
new_value value = if is_object value then ok value else err not_an_object

abbrev pub empty_state : Json
empty_state = object end

-- The trait: a store is loaded and takes patches. A commit returns its answer and the store after it.
pub record StateStore {ℓ} (S : Type ℓ) : Type ℓ where
  pub load : S → Json
  pub validate_patch : S → Json → Option StateError
  pub commit : S → Json → Result Json × S

pub record InMemoryStateStore : Type 0 where
  pub skill : SkillSpec
  pub state : Json

abbrev checked_new :
    Option StateError → Option StateError → SkillSpec → Json → Result InMemoryStateStore
checked_new (some e) _ skill initial = err e
checked_new none (some e) skill initial = err e
checked_new none none skill initial = ok (record { skill = skill; state = initial })

unfoldable pub new : SkillSpec → Json → Result InMemoryStateStore
new skill initial =
    checked_new (validate skill) (validate_against_schema initial skill.schema) skill initial

-- Σ' is computed and checked before the state is replaced.
abbrev pub replace_if :
    Option StateError → Json → InMemoryStateStore → Result Json × InMemoryStateStore
replace_if (some e) merged store = (err e, store)
replace_if none merged store = (ok merged, record store { state = merged })

abbrev pub commit_merged : Result Json → InMemoryStateStore → Result Json × InMemoryStateStore
commit_merged (err e) store = (err e, store)
commit_merged (ok merged) store =
    replace_if (validate_against_schema merged store.skill.schema) merged store

unfoldable pub commit_patch : InMemoryStateStore → Json → Result Json × InMemoryStateStore
commit_patch store patch = commit_merged (merge_state store.state patch) store

abbrev pub check_merged : Result Json → SkillSpec → Option StateError
check_merged (err e) skill = some e
check_merged (ok merged) skill = validate_against_schema merged skill.schema

unfoldable pub validate_state_patch : InMemoryStateStore → Json → Option StateError
validate_state_patch store patch = check_merged (merge_state store.state patch) store.skill

instance abbrev pub in_memory : StateStore InMemoryStateStore
in_memory = record {
  load = λ store. store.state;
  validate_patch = validate_state_patch;
  commit = commit_patch;
}

pub record Usage : Type 0 where
  pub prompt_tokens : ℕ
  pub completion_tokens : ℕ
  pub total_tokens : ℕ

pub record AgentAction : Type 0 where
  pub raw : Text
  pub tool : Option Text
  pub arguments : Json

pub record AgentStep : Type 0 where
  pub reasoning : Option Text
  pub patch : Json
  pub action : AgentAction
  pub usage : Option Usage

pub record CommittedTransition : Type 0 where
  pub prev_state : Json
  pub next_state : Json
  pub action : AgentAction
  pub reasoning : Option Text
  pub usage : Option Usage

abbrev pub transition : Json → Result Json → AgentStep → Result CommittedTransition
transition prev (err e) step = err e
transition prev (ok next) step = ok (record {
  prev_state = prev;
  next_state = next;
  action = step.action;
  reasoning = step.reasoning;
  usage = step.usage;
})

unfoldable pub apply_transition {ℓ} :
    {S : Type ℓ} ⦃s : StateStore S⦄ → S → AgentStep → Result CommittedTransition × S
apply_transition ⦃s⦄ store step =
    let committed = s.commit store step.patch in
    (transition (s.load store) committed.0 step, committed.1)
