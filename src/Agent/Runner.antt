-- ===== src/Agent/Runner.antt =====
-- The agent's loop: crates/fusion-agent-state/src/runner.rs, with the log and the model's input of
-- crates/fusion-agent-state/src/lib.rs and the token count of its benchmark.rs.
pub mod Steps
pub mod Stages
pub mod Logged
use fusion_router.Prelude.{
  ℕ, zero, suc, ◌+◌, ◌-◌, ◌/◌, Bool, true, false, List, [], ◌∷◌, ◌++◌, Option, none, some, Text,
  codes, ltb, length, drop, if◌then◌else◌,
}
use fusion_router.Prelude.Words.{saturating_add}
use fusion_router.Json.{Json, null, boolean, text, object, Members, end, member}
use fusion_router.Agent.Merge.{StateError, Result, ok, err}
use fusion_router.Agent.Store.{
  SkillSpec, byte_len, StateStore, Usage, AgentAction, AgentStep, CommittedTransition,
  apply_transition,
}

pub record EventLogEntry : Type 0 where
  pub step : ℕ
  pub prev_state : Json
  pub patch : Json
  pub next_state : Json
  pub action : Text
  pub observation : Json
  pub reasoning : Option Text

pub record EventLog : Type 0 where
  pub entries : List EventLogEntry
  pub max_entries : Option ℕ

abbrev pub new_log : EventLog
new_log = record { entries = []; max_entries = none }

abbrev pub with_max_entries : ℕ → EventLog
with_max_entries n = record { entries = []; max_entries = some n }

-- The oldest entries beyond the limit are dropped.
abbrev pub bounded : Option ℕ → List EventLogEntry → List EventLogEntry
bounded none entries = entries
bounded (some n) entries =
    if ltb n (length entries) then drop (length entries - n) entries else entries

unfoldable pub push : EventLogEntry → EventLog → EventLog
push entry log = record log { entries = bounded log.max_entries (log.entries ++ entry ∷ []) }

pub record ChatMessage : Type 0 where
  pub role : Text
  pub content : Text

pub record ChatRequest : Type 0 where
  pub model : Text
  pub messages : List ChatMessage

abbrev pub estimate_tokens : Text → ℕ
estimate_tokens t = (byte_len t + 3) / 4

abbrev pub count_tokens : List ChatMessage → ℕ
count_tokens [] = 0
count_tokens (m ∷ messages) =
    estimate_tokens m.role + estimate_tokens m.content + count_tokens messages

abbrev pub tokens_for_request : ChatRequest → ℕ
tokens_for_request req = count_tokens req.messages

pub record RunnerConfig : Type 0 where
  pub max_steps : ℕ
  pub model : Text
  pub max_tokens : Option ℕ

pub record StepOutcome : Type 0 where
  pub t : ℕ
  pub committed_state : Json
  pub observation : Json
  pub total_tokens : ℕ

-- The messages of a failed step, with what they name.
pub data StepError : Type 0 where
  cancelled cancelled_before_commit cancelled_before_tool max_steps_reached : StepError
  max_steps_exceeded : ℕ → StepError
  budget_would_exceed budget_exceeded : ℕ → ℕ → StepError
  refused_patch : StateError → StepError
  failed_llm failed_tool : Text → StepError

pub data Answer {ℓ} (A : Type ℓ) : Type ℓ where
  answered : A → Answer A
  failed : Text → Answer A

pub data Stepped {ℓ} (A : Type ℓ) : Type ℓ where
  done : A → Stepped A
  stopped : StepError → Stepped A

-- What a step meets: the token's answers where it is asked, the model and the tools.
pub record World : Type 0 where
  pub is_cancelled : Bool
  pub is_cancelled_before_commit : Bool
  pub is_cancelled_before_tool : Bool
  pub complete : ChatRequest → Answer AgentStep
  pub execute : AgentAction → Answer Json

pub record AgentRunner {ℓ} (S : Type ℓ) : Type ℓ where
  pub skill : SkillSpec
  pub store : S
  pub log : EventLog
  pub config : RunnerConfig
  pub total_tokens : ℕ

abbrev pub new {ℓ} : {S : Type ℓ} → SkillSpec → S → RunnerConfig → AgentRunner S
new skill store config = record {
  skill = skill;
  store = store;
  log = new_log;
  config = config;
  total_tokens = 0;
}

abbrev pub entry_of : ℕ → Json → AgentStep → CommittedTransition → Json → EventLogEntry
entry_of t prev step committed observation = record {
  step = t;
  prev_state = prev;
  patch = step.patch;
  next_state = committed.next_state;
  action = committed.action.raw;
  observation = observation;
  reasoning = committed.reasoning;
}

abbrev pub cancelled_observation : Json
cancelled_observation =
    object
      (member (codes "before_tool") (boolean true) (member (codes "cancelled") (boolean true) end))

-- The text of a JSON value, unless its printing fails.
module _ (to_string : Json → Option Text) where
  abbrev pub printed : Json → Text
  printed value = elim (to_string value) [ none ↦ codes "{}" | some t ↦ t ]

  abbrev pub observation_text : Json → Text
  observation_text (text s) = s
  observation_text other = printed other

  unfoldable pub build_model_input : SkillSpec → Json → Json → Text → ChatRequest
  build_model_input skill state observation model = record {
    model = model;
    messages =
        record { role = codes "system"; content = skill.instructions }
        ∷ record {
          role = codes "user";
          content = codes "Skill Execution State:\n```json\n" ++ (printed state ++ codes "\n```");
        }
        ∷ record {
          role = codes "user";
          content = codes "Latest Observation:\n" ++ observation_text observation;
        }
        ∷ [];
  }
