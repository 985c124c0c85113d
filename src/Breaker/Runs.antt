-- ===== src/Breaker/Runs.antt =====
-- Failures in a row, among the outcomes that are reported to a circuit breaker.
use fusion_router.Prelude.{ℕ, zero, suc, ◌≤◌, List, [], ◌∷◌, arith, ◌⊎◌, inl, inr}

-- What callers report to a breaker: a success, or a failure at a time.
pub data Report : Type 0 where
  success : Report
  failure : ℕ → Report

-- The reports begin with so many failures.
pub data Leading : ℕ → List Report → Type 0 where
  enough : {reports : List Report} → Leading 0 reports
  one_more :
      {n now : ℕ} {reports : List Report}
      → Leading n reports
      → Leading (suc n) (failure now ∷ reports)

-- Somewhere in the reports so many failures stand in a row.
pub data HasRun (n : ℕ) : List Report → Type 0 where
  starts : {reports : List Report} → Leading n reports → HasRun n reports
  later : {r : Report} {reports : List Report} → HasRun n reports → HasRun n (r ∷ reports)

pub Leading-le : (m n : ℕ) (reports : List Report) → Leading n reports → m ≤ n → Leading m reports
Leading-le zero n reports l h = enough
Leading-le (suc m) n _ enough h = absurd (omega arith)
Leading-le (suc m) _ _ (one_more {n} {reports} l) h =
    one_more (Leading-le m n reports l (omega arith))

pub Leading-tail :
    (n now : ℕ) (reports : List Report)
    → Leading (suc n) (failure now ∷ reports)
    → Leading n reports
Leading-tail n now reports (one_more l) = l

pub not-Leading-none : (n : ℕ) → Leading (suc n) [] → ⊥
not-Leading-none n l = elim l [ ]

pub not-Leading-success : (n : ℕ) (reports : List Report) → Leading (suc n) (success ∷ reports) → ⊥
not-Leading-success n reports l = elim l [ ]

pub not-HasRun-none : (n : ℕ) → HasRun (suc n) [] → ⊥
not-HasRun-none n (starts l) = not-Leading-none n l

pub HasRun-success :
    (n : ℕ) (reports : List Report) → HasRun (suc n) (success ∷ reports) → HasRun (suc n) reports
HasRun-success n reports (starts l) = absurd (not-Leading-success n reports l)
HasRun-success n reports (later h) = h

pub HasRun-failure :
    (n now : ℕ) (reports : List Report)
    → HasRun (suc n) (failure now ∷ reports)
    → Leading n reports ⊎ HasRun (suc n) reports
HasRun-failure n now reports (starts l) = inl (Leading-tail n now reports l)
HasRun-failure n now reports (later h) = inr h
