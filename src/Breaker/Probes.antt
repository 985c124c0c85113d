-- ===== src/Breaker/Probes.antt =====
-- Probes of a half-open circuit: what is left of one that is lost.
use fusion_router.Prelude.{
  ℕ, ◌+◌, ◌*◌, ◌≤◌, ◌≡◌, refl, Bool, true, false, List, [], ◌∷◌, none, some, arith, All,
}
use fusion_router.Breaker.{
  opened, half_open, CircuitBreaker, Waiting, completion, stream_start, gone, Provider, Reply,
  admitted, rejected, Arrival, Action, completes, streams, arrives, adjusts, clears, can_execute,
  probing, stream_open, after_item, update_thresholds, begin, chat_completion, chat_stream, resume,
  after_completion, after_start, arrive, act,
}

-- A probe is under way.
abbrev waiting : CircuitBreaker → Bool
waiting b = elim b.state [ half_open ↦ b.probe_in_flight | _ ↦ false ]

waiting_refuses : (b : CircuitBreaker) (now : ℕ) → waiting b ≡ true → can_execute b now ≡ (b, false)
unfolding can_execute
waiting_refuses b now h = ground arith

-- The breaker waits for a probe that no call in flight can report on.
abbrev Lost : Provider → Type 0
Lost p = (waiting p.breaker ≡ true) × (p.calls ≡ [])

begin-Lost :
    (p : Provider) (now : ℕ) (wait : Waiting)
    → waiting p.breaker ≡ true
    → begin p now wait ≡ (p, rejected)
unfolding begin
begin-Lost p now wait h = rw (waiting_refuses p.breaker now h) refl

arrive-none :
    (b : CircuitBreaker) (calls : List Waiting) (place : ℕ) (arrival : Arrival)
    → calls ≡ []
    → arrive b calls place arrival ≡ (b, calls)
unfolding arrive
arrive-none b [] place arrival h = refl
arrive-none b (wait ∷ calls) place arrival h = absurd (cc h)

-- The replies to the calls that begin, in order.
abbrev pub replies : Provider → List Action → List Reply
replies p [] = []
replies p (a ∷ actions) =
    let (q, reply) = act p a in
    let rest = replies q actions in elim reply [ none ↦ rest | some r ↦ r ∷ rest ]

abbrev pub is_reset : Action → Bool
is_reset clears = true
is_reset _ = false

Lost-rejects :
    (p : Provider) (actions : List Action)
    → Lost p
    → All (λ a. is_reset a ≡ false) actions
    → All (λ r. r ≡ rejected) (replies p actions)
unfolding act chat_completion chat_stream arrive update_thresholds
Lost-rejects p [] h k = tt
Lost-rejects p (completes now ∷ actions) h k =
    rw (begin-Lost p now completion h.0) (refl, Lost-rejects p actions h k.1)
Lost-rejects p (streams now ∷ actions) h k =
    rw (begin-Lost p now stream_start h.0) (refl, Lost-rejects p actions h k.1)
Lost-rejects p (arrives place arrival ∷ actions) h k =
    rw (arrive-none p.breaker p.calls place arrival h.1) (Lost-rejects p actions h k.1)
Lost-rejects p (adjusts failures cooldown ∷ actions) h k =
    Lost-rejects (record p { breaker = update_thresholds p.breaker failures cooldown }) actions h
      k.1
Lost-rejects p (clears ∷ actions) h k = absurd (cc k.0)

cooled_down_lets :
    (b : CircuitBreaker) (now last : ℕ)
    → b.state ≡ opened
    → b.last_failure_time ≡ some last
    → last + b.cooldown_secs * 1_000_000_000 ≤ now
    → (q : CircuitBreaker) × (can_execute b now ≡ (q, true)) × (waiting q ≡ true)
unfolding can_execute
cooled_down_lets b now last h e t = (probing b, ground arith, refl)

dropped-Lost :
    (p : Provider) (now : ℕ) (wait : Waiting) (q : CircuitBreaker)
    → can_execute p.breaker now ≡ (q, true)
    → waiting q ≡ true
    → p.calls ≡ []
    → ((begin p now wait).1 ≡ admitted) × Lost (act (begin p now wait).0 (arrives 0 gone)).0
unfolding begin act arrive resume after_completion after_start after_item
dropped-Lost p now completion q e w h = rw e (refl, (w, h))
dropped-Lost p now stream_start q e w h = rw e (refl, (w, h))
dropped-Lost p now (stream_open saw) q e w h = rw e (refl, (w, h))

-- A completion or stream that is asked for after the cooldown of an open circuit is admitted as the
-- probe. If no other call is in flight then and its caller drops it before the provider answers,
-- every call that begins later, at any time, is rejected, whatever happens but a reset: the breaker
-- is stuck half-open.
pub lost_probe_blocks :
    (p : Provider) (now last : ℕ) (wait : Waiting) (actions : List Action)
    → p.breaker.state ≡ opened
    → p.breaker.last_failure_time ≡ some last
    → last + p.breaker.cooldown_secs * 1_000_000_000 ≤ now
    → p.calls ≡ []
    → All (λ a. is_reset a ≡ false) actions
    → ((begin p now wait).1 ≡ admitted)
      × All (λ r. r ≡ rejected) (replies (act (begin p now wait).0 (arrives 0 gone)).0 actions)
lost_probe_blocks p now last wait actions h e t alone k =
    let probe = cooled_down_lets p.breaker now last h e t in
    let lost = dropped-Lost p now wait probe.0 probe.1 probe.2 alone in
    (lost.0, Lost-rejects (act (begin p now wait).0 (arrives 0 gone)).0 actions lost.1 k)
