-- ===== src/Budget/Manager/Race.antt =====
-- Two concurrent `release` calls on the double of crates/fusion-kernel/src/resource/mod.rs. It takes
-- no lock there: the counter is loaded, and what was loaded bounds a later `fetch_sub`.
use fusion_router.Prelude.{ℕ, ◌-◌, ◌<◌, ◌^◌, ◌≡◌, refl, subst, min, arith}
use fusion_router.Prelude.Words.{IsU64, wrapping_sub}

-- What one call still has to do: all of it, the subtraction of a bounded amount, or nothing.
pub data Pc : Type 0 where
  pending : ℕ → Pc
  loaded : ℕ → Pc
  finished : Pc

pub record Race : Type 0 where
  pub counter : ℕ
  pub left : Pc
  pub right : Pc

-- One atomic action of one of the two calls.
pub data Step : Race → Race → Type 0 where
  load_left :
      (s : Race) (amount : ℕ)
      → s.left ≡ pending amount
      → Step s (record s { left = loaded (min amount s.counter) })
  sub_left :
      (s : Race) (bounded : ℕ)
      → s.left ≡ loaded bounded
      → Step s (record s { counter = wrapping_sub s.counter bounded; left = finished })
  load_right :
      (s : Race) (amount : ℕ)
      → s.right ≡ pending amount
      → Step s (record s { right = loaded (min amount s.counter) })
  sub_right :
      (s : Race) (bounded : ℕ)
      → s.right ≡ loaded bounded
      → Step s (record s { counter = wrapping_sub s.counter bounded; right = finished })

pub data Reach (s : Race) : Race → Type 0 where
  here : Reach s s
  next : {t u : Race} → Reach s t → Step t u → Reach s u

abbrev pub two_releases : ℕ → ℕ → Race
two_releases counter amount = record {
  counter = counter;
  left = pending amount;
  right = pending amount;
}

interleaved :
    (c : ℕ)
    → Reach (two_releases c c) (record {
      counter = wrapping_sub (wrapping_sub c (min c c)) (min c c);
      left = finished;
      right = finished;
    })
interleaved c =
    next
      (next (next (next here (load_left _ c refl)) (load_right _ c refl))
        (sub_left _ (min c c) refl))
      (sub_right _ (min c c) refl)

wrapped : (c : ℕ) → 0 < c → IsU64 c → wrapping_sub (wrapping_sub c (min c c)) (min c c) ≡ 2 ^ 64 - c
wrapped c p h = omega arith

-- For every positive amount that is fully reserved, two concurrent releases of it can end with the
-- counter at 2 ^ 64 less the amount: the subtraction wraps although each call bounded it.
pub release_race :
    (c : ℕ)
    → 0 < c
    → IsU64 c
    → Reach (two_releases c c) (record { counter = 2 ^ 64 - c; left = finished; right = finished })
release_race c p h =
    subst
      (λ n. Reach (two_releases c c) (record { counter = n; left = finished; right = finished }))
      (wrapped c p h) (interleaved c)
