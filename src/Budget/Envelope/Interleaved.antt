-- ===== src/Budget/Envelope/Interleaved.antt =====
-- Calls of `record_and_check` on clones of one envelope, interleaved between their atomic operations:
-- two updates, then two loads.
use fusion_router.Prelude.{
  ℕ, zero, suc, ◌+◌, ◌≡◌, refl, ◌∙◌, List, [], ◌∷◌, arith, All, Bool, true, false,
}
use fusion_router.Prelude.Words.{IsU64, saturate}
use fusion_router.Money.{NanoUsd}
use fusion_router.Budget.Envelope.{Envelope, Outcome, add_cost, add_tokens, enforce}

pub record Spend : Type 0 where
  pub cost : NanoUsd
  pub tokens : ℕ

-- Where a call stands, with what it has read so far.
pub data Pc : Type 0 where
  called : Spend → Pc
  cost_added : Spend → ℕ → Pc
  tokens_added : Spend → ℕ → ℕ → Pc
  cost_loaded : Spend → ℕ → ℕ → ℕ → Pc
  answered : Outcome (Unit {0}) → Pc

-- The next atomic operation of a call.
abbrev pub advance : Envelope → Pc → Envelope × Pc
advance e (called s) = (add_cost e s.cost, cost_added s e.spent_cost)
advance e (cost_added s prev_cost) =
    (add_tokens e s.tokens, tokens_added s prev_cost e.spent_tokens)
advance e (tokens_added s prev_cost prev_tokens) =
    (e, cost_loaded s prev_cost prev_tokens e.spent_cost)
advance e (cost_loaded s prev_cost prev_tokens new_cost) =
    (e, answered (enforce e prev_cost s.cost prev_tokens s.tokens new_cost e.spent_tokens))
advance e (answered outcome) = (e, answered outcome)

-- The call at a place takes its next operation; a place without a call changes nothing.
unfoldable pub advance_at : Envelope → List Pc → ℕ → Envelope × List Pc
advance_at e [] place = (e, [])
advance_at e (pc ∷ pcs) zero = let (e', pc') = advance e pc in (e', pc' ∷ pcs)
advance_at e (pc ∷ pcs) (suc place) = let (e', rest) = advance_at e pcs place in (e', pc ∷ rest)

-- The order in which the calls take their operations.
unfoldable pub interleave : Envelope → List Pc → List ℕ → Envelope × List Pc
interleave e pcs [] = (e, pcs)
interleave e pcs (place ∷ places) =
    let (e', pcs') = advance_at e pcs place in interleave e' pcs' places

-- What a call has still to add, and all calls together.
abbrev cost_of : Pc → ℕ
cost_of (called s) = s.cost.nanos
cost_of _ = 0

abbrev tokens_of : Pc → ℕ
tokens_of (called s) = s.tokens
tokens_of (cost_added s _) = s.tokens
tokens_of _ = 0

abbrev pub owed_cost : List Pc → ℕ
owed_cost [] = 0
owed_cost (pc ∷ pcs) = cost_of pc + owed_cost pcs

abbrev pub owed_tokens : List Pc → ℕ
owed_tokens [] = 0
owed_tokens (pc ∷ pcs) = tokens_of pc + owed_tokens pcs

abbrev pub is_answered : Pc → Bool
is_answered (answered _) = true
is_answered _ = false

-- Both counters stay u64 and go to the same totals, whatever else is added to them.
abbrev Agrees : ℕ → ℕ → Envelope → ℕ → ℕ → Envelope → ℕ → ℕ → Type 0
Agrees more_cost more_tokens e cost tokens e' cost' tokens' =
    IsU64 e'.spent_cost
    × IsU64 e'.spent_tokens
    × (saturate (e'.spent_cost + cost' + more_cost) ≡ saturate (e.spent_cost + cost + more_cost))
    × (saturate (e'.spent_tokens + tokens' + more_tokens)
        ≡ saturate (e.spent_tokens + tokens + more_tokens))

-- What a call owes goes with what it is owed besides, and the other way round.
head_first :
    (a p a' p' o m : ℕ)
    → saturate (a' + p' + (o + m)) ≡ saturate (a + p + (o + m))
    → saturate (a' + (p' + o) + m) ≡ saturate (a + (p + o) + m)
head_first a p a' p' o m e = ground arith

rest_first :
    (a o a' o' p m : ℕ)
    → saturate (a' + o' + (p + m)) ≡ saturate (a + o + (p + m))
    → saturate (a' + (p + o') + m) ≡ saturate (a + (p + o) + m)
rest_first a o a' o' p m e = ground arith

nothing_more :
    (a o a' o' : ℕ)
    → saturate (a' + o' + 0) ≡ saturate (a + o + 0)
    → saturate (a' + o') ≡ saturate (a + o)
nothing_more a o a' o' e = ground arith

advance-Agrees :
    (e : Envelope) (pc : Pc) (c t : ℕ)
    → IsU64 e.spent_cost
    → IsU64 e.spent_tokens
    → Agrees c t e
        (cost_of pc)
        (tokens_of pc)
        (advance e pc).0
        (cost_of (advance e pc).1)
        (tokens_of (advance e pc).1)
advance-Agrees e (called s) c t hc ht = (ground arith, ht, ground arith, refl)
advance-Agrees e (cost_added s _) c t hc ht = (hc, ground arith, refl, ground arith)
advance-Agrees e (tokens_added s _ _) c t hc ht = (hc, ht, refl, refl)
advance-Agrees e (cost_loaded s _ _ _) c t hc ht = (hc, ht, refl, refl)
advance-Agrees e (answered o) c t hc ht = (hc, ht, refl, refl)

advance_at-Agrees :
    (e : Envelope) (pcs : List Pc) (place c t : ℕ)
    → IsU64 e.spent_cost
    → IsU64 e.spent_tokens
    → Agrees c t e
        (owed_cost pcs)
        (owed_tokens pcs)
        (advance_at e pcs place).0
        (owed_cost (advance_at e pcs place).1)
        (owed_tokens (advance_at e pcs place).1)
unfolding advance_at
advance_at-Agrees e [] place c t hc ht = (hc, ht, refl, refl)
advance_at-Agrees e (pc ∷ pcs) zero c t hc ht =
    let (uc, ut, ec, et) = advance-Agrees e pc (owed_cost pcs + c) (owed_tokens pcs + t) hc ht in
    (
      uc,
      ut,
      head_first e.spent_cost (cost_of pc) (advance e pc).0.spent_cost (cost_of (advance e pc).1)
          (owed_cost pcs) c ec,
      head_first e.spent_tokens (tokens_of pc) (advance e pc).0.spent_tokens
          (tokens_of (advance e pc).1) (owed_tokens pcs) t et,
    )
advance_at-Agrees e (pc ∷ pcs) (suc place) c t hc ht =
    let (uc, ut, ec, et) =
      advance_at-Agrees e pcs place (cost_of pc + c) (tokens_of pc + t) hc ht in
    let q = advance_at e pcs place in
    (
      uc,
      ut,
      rest_first e.spent_cost (owed_cost pcs) q.0.spent_cost (owed_cost q.1) (cost_of pc) c ec,
      rest_first e.spent_tokens (owed_tokens pcs) q.0.spent_tokens (owed_tokens q.1) (tokens_of pc)
          t et,
    )

owed-answered :
    (pcs : List Pc)
    → All (λ pc. is_answered pc ≡ true) pcs
    → (owed_cost pcs ≡ 0) × (owed_tokens pcs ≡ 0)
owed-answered [] h = (refl, refl)
owed-answered (answered o ∷ pcs) h =
    let (zc, zt) = owed-answered pcs h.1 in (omega arith, omega arith)
owed-answered (called s ∷ pcs) h = absurd (cc h.0)
owed-answered (cost_added s _ ∷ pcs) h = absurd (cc h.0)
owed-answered (tokens_added s _ _ ∷ pcs) h = absurd (cc h.0)
owed-answered (cost_loaded s _ _ _ ∷ pcs) h = absurd (cc h.0)

-- However the operations of the calls are interleaved, once every call has answered the counters are
-- the exact totals of what all calls recorded, cut off at the largest u64: no spend is lost to a
-- race, and none is rolled back by a refusal.
pub interleave_totals :
    (e : Envelope) (pcs : List Pc) (places : List ℕ)
    → IsU64 e.spent_cost
    → IsU64 e.spent_tokens
    → All (λ pc. is_answered pc ≡ true) (interleave e pcs places).1
    → ((interleave e pcs places).0.spent_cost ≡ saturate (e.spent_cost + owed_cost pcs))
      × ((interleave e pcs places).0.spent_tokens ≡ saturate (e.spent_tokens + owed_tokens pcs))
unfolding interleave
interleave_totals e pcs [] hc ht h =
    let (zc, zt) = owed-answered pcs h in (ground arith, ground arith)
interleave_totals e pcs (place ∷ places) hc ht h =
    let (uc, ut, ec, et) = advance_at-Agrees e pcs place 0 0 hc ht in
    let q = advance_at e pcs place in
    let (c, t) = interleave_totals q.0 q.1 places uc ut h in
    (
      c ∙ nothing_more e.spent_cost (owed_cost pcs) q.0.spent_cost (owed_cost q.1) ec,
      t ∙ nothing_more e.spent_tokens (owed_tokens pcs) q.0.spent_tokens (owed_tokens q.1) et,
    )
