-- ===== src/Breaker.antt =====
-- The circuit breaker of a provider: src/providers/circuit_breaker.rs, and the calls that go through
-- it, src/providers/circuit_breaking_provider.rs. A method of the breaker is
-- one step, and a call through the wrapper one step for each part between its awaits; times are in
-- nanoseconds.
pub mod Runs
pub mod Trips
pub mod Probes
use fusion_router.Prelude.{
  ℕ, zero, suc, ◌+◌, ◌-◌, ◌*◌, ◌%◌, ◌^◌, Bool, true, false, List, [], ◌∷◌, Option, none, some, leb,
  if◌then◌else◌,
}

pub data CircuitState : Type 0 where
  closed opened half_open : CircuitState

pub record CircuitBreaker : Type 0 where
  pub failure_threshold : ℕ
  pub success_threshold : ℕ
  pub cooldown_secs : ℕ
  pub state : CircuitState
  pub failure_count : ℕ
  pub success_count : ℕ
  pub last_failure_time : Option ℕ
  pub probe_in_flight : Bool

unfoldable pub new : ℕ → ℕ → ℕ → CircuitBreaker
new failure_threshold success_threshold cooldown_secs = record {
  failure_threshold = failure_threshold;
  success_threshold = success_threshold;
  cooldown_secs = cooldown_secs;
  state = closed;
  failure_count = 0;
  success_count = 0;
  last_failure_time = none;
  probe_in_flight = false;
}

-- The counters are u32 atomics.
abbrev pub bump : ℕ → ℕ
bump n = (n + 1) % 2 ^ 32

abbrev pub cooled_down : CircuitBreaker → ℕ → ℕ → Bool
cooled_down b last now = leb (b.cooldown_secs * 1_000_000_000) (now - last)

abbrev pub probing : CircuitBreaker → CircuitBreaker
probing b = record b { state = half_open; success_count = 0; probe_in_flight = true }

unfoldable pub try_open : CircuitBreaker → ℕ → CircuitBreaker × Bool
try_open b now = elim b.last_failure_time [
  | none ↦ (b, false)
  | some last ↦ if cooled_down b last now then (probing b, true) else (b, false)
]

unfoldable pub can_execute : CircuitBreaker → ℕ → CircuitBreaker × Bool
unfolding try_open
can_execute b now = elim b.state [
  | closed ↦ (b, true)
  | opened ↦ try_open b now
  | half_open ↦
      if b.probe_in_flight then (b, false) else (record b { probe_in_flight = true }, true)
]

unfoldable pub record_success : CircuitBreaker → CircuitBreaker
record_success b = elim b.state [
  | half_open ↦
      if leb b.success_threshold (bump b.success_count)
      then record b {
        state = closed;
        failure_count = 0;
        success_count = bump b.success_count;
        probe_in_flight = false;
      }
      else record b { success_count = bump b.success_count; probe_in_flight = false }
  | closed ↦ record b { failure_count = 0 }
  | opened ↦ b
]

unfoldable pub record_failure : CircuitBreaker → ℕ → CircuitBreaker
record_failure b now = elim b.state [
  | half_open ↦ record b { state = opened; last_failure_time = some now; probe_in_flight = false }
  | closed ↦
      if leb b.failure_threshold (bump b.failure_count)
      then record b {
        state = opened;
        failure_count = bump b.failure_count;
        last_failure_time = some now;
      }
      else record b { failure_count = bump b.failure_count }
  | opened ↦ b
]

unfoldable pub update_thresholds : CircuitBreaker → ℕ → ℕ → CircuitBreaker
update_thresholds b failure_threshold cooldown_secs = record b {
  failure_threshold = failure_threshold;
  cooldown_secs = cooldown_secs;
}

unfoldable pub reset : CircuitBreaker → CircuitBreaker
reset b = record b { state = closed; failure_count = 0; success_count = 0 }

-- What a call through the wrapper waits for across an await: the response of a completion, the start
-- of a stream, or an item of a stream, with the flag of a success seen before.
pub data Waiting : Type 0 where
  completion stream_start : Waiting
  stream_open : Bool → Waiting

-- What comes of it: the provider answers, fails at a time, or nothing more comes, because the caller
-- dropped the call or the stream ended.
pub data Arrival : Type 0 where
  answers : Arrival
  fails : ℕ → Arrival
  gone : Arrival

-- The rest of a call after an await: the breaker, and what the call waits for next.
unfoldable pub after_completion : CircuitBreaker → Arrival → CircuitBreaker × Option Waiting
after_completion b answers = (record_success b, none)
after_completion b (fails now) = (record_failure b now, none)
after_completion b gone = (b, none)

unfoldable pub after_start : CircuitBreaker → Arrival → CircuitBreaker × Option Waiting
after_start b answers = (b, some (stream_open false))
after_start b (fails now) = (record_failure b now, none)
after_start b gone = (b, none)

unfoldable pub after_item : CircuitBreaker → Bool → Arrival → CircuitBreaker × Option Waiting
after_item b saw answers = (if saw then b else record_success b, some (stream_open true))
after_item b saw (fails now) = (record_failure b now, some (stream_open saw))
after_item b saw gone = (b, none)

unfoldable pub resume : CircuitBreaker → Waiting → Arrival → CircuitBreaker × Option Waiting
resume b completion arrival = after_completion b arrival
resume b stream_start arrival = after_start b arrival
resume b (stream_open saw) arrival = after_item b saw arrival

-- The breaker with the calls in flight, the latest first.
pub record Provider : Type 0 where
  pub breaker : CircuitBreaker
  pub calls : List Waiting

pub data Reply : Type 0 where
  admitted rejected : Reply

-- A call up to its first await.
unfoldable pub begin : Provider → ℕ → Waiting → Provider × Reply
begin p now wait =
    let (b, allowed) = can_execute p.breaker now in
    if allowed
    then (record { breaker = b; calls = wait ∷ p.calls }, admitted)
    else (record p { breaker = b }, rejected)

unfoldable pub chat_completion : Provider → ℕ → Provider × Reply
chat_completion p now = begin p now completion

unfoldable pub chat_stream : Provider → ℕ → Provider × Reply
chat_stream p now = begin p now stream_start

abbrev pub wait_on : Option Waiting → List Waiting → List Waiting
wait_on none calls = calls
wait_on (some wait) calls = wait ∷ calls

-- The call at a place of the list goes on; a place without a call changes nothing.
unfoldable pub arrive : CircuitBreaker → List Waiting → ℕ → Arrival → CircuitBreaker × List Waiting
arrive b [] place arrival = (b, [])
arrive b (wait ∷ calls) zero arrival =
    let (b', next) = resume b wait arrival in (b', wait_on next calls)
arrive b (wait ∷ calls) (suc place) arrival =
    let (b', rest) = arrive b calls place arrival in (b', wait ∷ rest)

-- What happens to a provider, in any interleaving of its calls.
pub data Action : Type 0 where
  completes streams : ℕ → Action
  arrives : ℕ → Arrival → Action
  adjusts : ℕ → ℕ → Action
  clears : Action

unfoldable pub act : Provider → Action → Provider × Option Reply
act p (completes now) = let (q, reply) = chat_completion p now in (q, some reply)
act p (streams now) = let (q, reply) = chat_stream p now in (q, some reply)
act p (arrives place arrival) =
    let (b, calls) = arrive p.breaker p.calls place arrival in
    (record { breaker = b; calls = calls }, none)
act p (adjusts failures cooldown) =
    (record p { breaker = update_thresholds p.breaker failures cooldown }, none)
act p clears = (record p { breaker = reset p.breaker }, none)

-- Every way in which the breaker is driven.
pub data Event : Type 0 where
  asks : ℕ → Event
  succeeds : Event
  fails_at : ℕ → Event
  reconfigures : ℕ → ℕ → Event
  resets : Event

unfoldable pub handle : CircuitBreaker → Event → CircuitBreaker
handle b (asks now) = (can_execute b now).0
handle b succeeds = record_success b
handle b (fails_at now) = record_failure b now
handle b (reconfigures failures cooldown) = update_thresholds b failures cooldown
handle b resets = reset b

unfoldable pub handle_all : CircuitBreaker → List Event → CircuitBreaker
handle_all b [] = b
handle_all b (e ∷ events) = handle_all (handle b e) events
