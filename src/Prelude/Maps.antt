-- ===== src/Prelude/Maps.antt =====
-- `HashMap` as an association list: the first pair with a key is the entry. Where the program walks
-- a map, the order of the list stands for the order that the table happens to have.
use mathlib.Core.Path.{◌≡◌, refl, subst}
use mathlib.Core.Bool.{Bool}
use mathlib.Core.Logic.{inl, inr}
use fusion_router.Prelude.Lists.{keep}
use mathlib.Core.List.{List, [], ◌∷◌, ◌++◌}
use Prim.Native.Nat.{ℕ, ◌+◌}
use mathlib.Core.Option.{Option, none, some}
use native.Mathlib.Omega.{arith}
use fusion_router.Prelude.Tests.{Comparable, ◌==◌, if◌then◌else◌, Bool-cases}

abbrev pub Map {ℓ κ} : Type ℓ → Type κ → Type (ℓ ⊔ κ)
Map K V = List (K × V)

module _ {ℓ κ} {K : Type ℓ} {V : Type κ} ⦃e : Comparable K⦄ where
  unfoldable pub get : K → Map K V → Option V
  get k [] = none
  get k ((j, v) ∷ m) = if j == k then some v else get k m

  unfoldable pub put : K → V → Map K V → Map K V
  put k v [] = (k, v) ∷ []
  put k v ((j, w) ∷ m) = if j == k then (j, v) ∷ m else (j, w) ∷ put k v m

  unfoldable pub delete : K → Map K V → Map K V
  delete k [] = []
  delete k ((j, w) ∷ m) = let rest = delete k m in if j == k then rest else (j, w) ∷ rest

  pub get-put :
      (k j : K) (v : V) (m : Map K V) → get j (put k v m) ≡ (if k == j then some v else get j m)
  unfolding get put
  get-put k j v [] = refl
  get-put k j v ((i, w) ∷ m) =
      ground (arith, e.same_iff k j, e.same_iff i k, e.same_iff i j, get-put k j v m)

  pub get-delete : (k j : K) (m : Map K V) → get j (delete k m) ≡ (if k == j then none else get j m)
  unfolding get delete
  get-delete k j [] = ground arith
  get-delete k j ((i, w) ∷ m) =
      ground (arith, e.same_iff k j, e.same_iff i k, e.same_iff i j, get-delete k j m)

-- `get(k).copied().unwrap_or(d)`
abbrev pub get_or {ℓ κ} : {K : Type ℓ} {V : Type κ} ⦃e : Comparable K⦄ → K → V → Map K V → V
get_or k d m = elim (get k m) [ none ↦ d | some v ↦ v ]

-- `entry(k).or_default().push(v)` and `entry(k).or_insert(0) += 1`.
unfoldable pub push_at {ℓ κ} :
    {K : Type ℓ} {V : Type κ} ⦃e : Comparable K⦄ → K → V → Map K (List V) → Map K (List V)
push_at k v m = put k (get_or k [] m ++ v ∷ []) m

unfoldable pub increment {ℓ} : {K : Type ℓ} ⦃e : Comparable K⦄ → K → Map K ℕ → Map K ℕ
increment k m = put k (get_or k 0 m + 1) m

-- `entry(k).or_default()` adds an entry only where there is none.
unfoldable pub touch {ℓ κ} :
    {K : Type ℓ} {V : Type κ} ⦃e : Comparable K⦄ → K → V → Map K V → Map K V
touch k v m = elim (get k m) [ none ↦ put k v m | some _ ↦ m ]

-- A property of every value that a map stores, shadowed entries included.
abbrev pub AllValues {ℓ κ ℓ'} : {K : Type ℓ} {V : Type κ} → (V → Type ℓ') → Map K V → Type ℓ'
AllValues P [] = Unit
AllValues P ((k, v) ∷ m) = P v × AllValues P m

module _ {ℓ κ ℓ'} {K : Type ℓ} {V : Type κ} (P : V → Type ℓ') where
  pub AllValues-keep : (p : K × V → Bool) (m : Map K V) → AllValues P m → AllValues P (keep p m)
  AllValues-keep p [] h = tt
  AllValues-keep p ((k, v) ∷ m) h = elim (Bool-cases (p (k, v))) [
    | inl e ↦ rw e (h.0, AllValues-keep p m h.1)
    | inr e ↦ rw e (AllValues-keep p m h.1)
  ]

module _ {ℓ κ ℓ'} {K : Type ℓ} {V : Type κ} ⦃e : Comparable K⦄ (P : V → Type ℓ') where
  pub AllValues-put : (k : K) (v : V) (m : Map K V) → P v → AllValues P m → AllValues P (put k v m)
  unfolding put
  AllValues-put k v [] p h = (p, tt)
  AllValues-put k v ((j, w) ∷ m) p h = elim (Bool-cases (j == k)) [
    | inl t ↦ rw t (p, h.1)
    | inr t ↦ rw t (h.0, AllValues-put k v m p h.1)
  ]

  pub AllValues-get : (k : K) (v : V) (m : Map K V) → get k m ≡ some v → AllValues P m → P v
  unfolding get
  AllValues-get k v [] g h = cc
  AllValues-get k v ((j, w) ∷ m) g h = elim (Bool-cases (j == k)) [
    | inl t ↦ subst P (ground arith) h.0
    | inr t ↦ AllValues-get k v m (ground arith) h.1
  ]
