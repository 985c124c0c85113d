-- ===== src/Tests/Agent.antt =====
-- The agent's state: the theorems at a small skill and its patches.
use fusion_router.Prelude.{
  ℕ, ◌≡◌, ◌↔◌, refl, Bool, true, false, Option, none, some, [], ◌∷◌, List, arith, Text, codes,
  text_beq,
}
use fusion_router.Json.{
  Json, null, number, text, array, object, Members, nil, element, end, member, pos_int, get, set,
  delete, text_ltb, contains_key, has_keys_once,
}
use fusion_router.Agent.Merge.{ok, merge_members, merge_state}
use fusion_router.Agent.Merge.Laws.{Merges}
use fusion_router.Agent.Merge.Clashes.{Clash, merge_follows_rules, fails, merge_fails_on_Clash}
use fusion_router.Agent.Schema.{
  named_type, schema_type, required, allows_additional, properties, check_required, check_leaf,
  validate_value, validate_against_schema,
}
use fusion_router.Agent.Store.{
  SkillSpec, validate, InMemoryStateStore, in_memory, new, AgentStep, apply_transition,
  commit_patch,
}
use fusion_router.Agent.Store.Laws.{IsSound, after, state_stays-IsSound, in_memory-Commits}
use fusion_router.Agent.Runner.{
  World, RunnerConfig, answered, Stepped, done, push, build_model_input,
}
use fusion_router.Agent.Runner as Runner
use fusion_router.Agent.Runner.Steps.{step, rounds, run_until}
use fusion_router.Agent.Runner.Stages.{IsConsistent}
use fusion_router.Agent.Runner.Logged.{HasFinished, step-IsConsistent, run_until_lem}

abbrev count : ℕ → Json
count n = number (pos_int n)

-- {"note": "x", "tests": {"failing": 3, "passing": 42}}
abbrev base : Members
base = member (codes "note") (text (codes "x")) (
    member (codes "tests")
      (object (member (codes "failing") (count 3) (member (codes "passing") (count 42) end))) end)

-- {"note": null, "tests": {"failing": 2}}
abbrev patch : Members
patch =
    member (codes "note") null
      (member (codes "tests") (object (member (codes "failing") (count 2) end)) end)

-- {"tests": {"failing": 2, "passing": 42}}
abbrev result : Json
result = object (
    member (codes "tests")
      (object (member (codes "failing") (count 2) (member (codes "passing") (count 42) end))) end)

merge_follows_rules_example : Merges (some (object base)) (some (object patch)) (some result)
unfolding merge_state merge_members get set delete text_ltb has_keys_once contains_key text_beq
merge_follows_rules_example = merge_follows_rules base patch result refl refl

-- {"note": {}}
abbrev clashing : Members
clashing = member (codes "note") (object end) end

merge_fails_on_Clash_example :
    (fails (merge_state (object base) (object clashing)) ≡ true) ↔ Clash clashing base
unfolding has_keys_once contains_key text_beq
merge_fails_on_Clash_example = merge_fails_on_Clash base clashing refl

-- A null under a key that the base lacks is kept, and deletes what is there only the second time.
abbrev nested : Json
nested = object (member (codes "a") (object (member (codes "b") null end)) end)

nested_null_stays : merge_state (object end) nested ≡ ok nested
unfolding merge_state merge_members get set
nested_null_stays = refl

nested_null_goes : merge_state nested nested ≡ ok (object (member (codes "a") (object end) end))
unfolding merge_state merge_members get set delete text_beq
nested_null_goes = refl

-- A skill whose states have a counter, which is an integer.
abbrev skill : SkillSpec
skill = record {
  schema = object (
      member (codes "properties")
        (object (
          member (codes "counter") (object (member (codes "type") (text (codes "integer")) end))
            end))
        (member (codes "required") (array (element (text (codes "counter")) nil))
          (member (codes "type") (text (codes "object")) end)));
  instructions = codes "count";
  version = codes "1";
}

abbrev counted : ℕ → Json
counted n = object (member (codes "counter") (count n) end)

abbrev store : InMemoryStateStore
store = record { skill = skill; state = counted 0 }

-- The second patch deletes the counter, which is refused.
abbrev patches : List Json
patches = counted 2 ∷ object (member (codes "counter") null end) ∷ counted 1 ∷ []

state_stays-IsSound_example : IsSound skill (after patches store)
unfolding new validate validate_against_schema validate_value schema_type named_type required
    properties allows_additional check_required check_leaf get contains_key text_beq
state_stays-IsSound_example = state_stays-IsSound skill (counted 0) store patches refl refl refl

commits_run : (after patches store).state ≡ counted 2
unfolding commit_patch merge_state merge_members set delete text_ltb validate_against_schema
    validate_value schema_type named_type required properties allows_additional check_required
    check_leaf get contains_key text_beq
commits_run = refl

abbrev proposal : AgentStep
proposal = record {
  reasoning = none;
  patch = counted 1;
  action = record { raw = codes "act"; tool = none; arguments = null };
  usage = none;
}

abbrev world : World
world = record {
  is_cancelled = false;
  is_cancelled_before_commit = false;
  is_cancelled_before_tool = false;
  complete = λ _. answered proposal;
  execute = λ _. answered (text (codes "done"));
}

abbrev config : RunnerConfig
config = record { max_steps = 3; model = codes "m"; max_tokens = some 1000 }

abbrev to_string : Json → Option Text
to_string _ = none

abbrev is_text : Json → Json → Bool
is_text state (text _) = true
is_text state _ = false

step-IsConsistent_example :
    IsConsistent (counted 0) (step to_string world null (Runner.new skill store config)).1
unfolding step build_model_input apply_transition commit_patch merge_state merge_members set
    text_ltb validate_against_schema validate_value schema_type named_type required properties
    allows_additional check_required check_leaf get contains_key text_beq
step-IsConsistent_example =
    step-IsConsistent in_memory-Commits to_string (counted 0) world null
      (Runner.new skill store config)
      (record { follows = refl; numbered = tt; within = omega arith; unbounded = refl }) refl

run_until_lem_example :
    HasFinished
      (counted 0)
      is_text
      (counted 1)
      (run_until to_string (λ _. false) (λ _. world) is_text null (Runner.new skill store config)).1
unfolding run_until rounds step build_model_input apply_transition commit_patch merge_state
    merge_members set text_ltb validate_against_schema validate_value schema_type named_type
    required properties allows_additional check_required check_leaf get contains_key text_beq
run_until_lem_example =
    run_until_lem in_memory-Commits to_string skill store config (λ _. false) (λ _. world) is_text
      null (counted 1) refl
