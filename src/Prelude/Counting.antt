-- ===== src/Prelude/Counting.antt =====
-- Counting without repetitions: a list of distinct items of another list is no longer than it.
use fusion_router.Prelude.Tests.{Comparable, ◌==◌, if◌then◌else◌, Bool-cases}
use fusion_router.Prelude.Lists.{length, All, keep}
use fusion_router.Prelude.Sets.{contains, insert}
use Prim.Native.Nat.{suc, ◌≤◌, ◌<◌}
use mathlib.Core.Path.{◌≡◌, refl, subst}
use mathlib.Core.Bool.{Bool, true, false, not, ◌&&◌}
use mathlib.Core.List.{List, [], ◌∷◌}
use mathlib.Core.Logic.{inl, inr}
use native.Mathlib.Omega.{arith}

module _ {ℓ} {A : Type ℓ} ⦃e : Comparable A⦄ where
  unfoldable pub distinct : List A → Bool
  distinct [] = true
  distinct (x ∷ xs) = not (contains xs x) && distinct xs

  -- Every item of the first list is in the second.
  abbrev pub Subset : List A → List A → Type 0
  Subset xs ys = All (λ x. contains ys x ≡ true) xs

  -- The list without the first occurrence of an item.
  unfoldable pub erase : A → List A → List A
  erase a [] = []
  erase a (x ∷ xs) = if x == a then xs else x ∷ erase a xs

  pub length-erase :
      (a : A) (xs : List A) → contains xs a ≡ true → suc (length (erase a xs)) ≡ length xs
  unfolding erase contains
  length-erase a [] h = cc
  length-erase a (x ∷ xs) h = ground (arith, length-erase a xs)

  pub contains-erase :
      (a b : A) (xs : List A) → (a == b) ≡ false → contains (erase a xs) b ≡ contains xs b
  unfolding erase contains
  contains-erase a b [] h = refl
  contains-erase a b (x ∷ xs) h =
      ground (arith, contains-erase a b xs, e.same_iff x a, e.same_iff x b, e.same_iff a b)

  pub contains-false_ne :
      (a b : A) (xs : List A) → contains xs a ≡ false → contains xs b ≡ true → (a == b) ≡ false
  contains-false_ne a b xs h k = ground (arith, e.same_iff a b)

  Subset-erase :
      (a : A) (xs ys : List A) → contains xs a ≡ false → Subset xs ys → Subset xs (erase a ys)
  unfolding contains
  Subset-erase a [] ys h s = tt
  Subset-erase a (x ∷ xs) ys h s = (
    ground (arith, contains-erase a x ys, e.same_iff a x, e.same_iff x a),
    Subset-erase a xs ys (ground arith) s.1,
  )

  pub length-le_of_distinct :
      (xs ys : List A) → distinct xs ≡ true → Subset xs ys → length xs ≤ length ys
  unfolding distinct
  length-le_of_distinct [] ys d s = omega arith
  length-le_of_distinct (x ∷ xs) ys d s = omega (
    arith,
    length-erase x ys s.0,
    length-le_of_distinct xs (erase x ys) (ground arith) (Subset-erase x xs ys (ground arith) s.1),
  )

  pub Subset-contains :
      (xs ys : List A) (a : A) → Subset xs ys → contains xs a ≡ true → contains ys a ≡ true
  unfolding contains
  Subset-contains [] ys a s m = absurd (cc m)
  Subset-contains (x ∷ xs) ys a s m = elim (Bool-cases (x == a)) [
    | inl here ↦ subst (λ b. contains ys b ≡ true) ((e.same_iff x a).0 here) s.0
    | inr there ↦ Subset-contains xs ys a s.1 (ground arith)
  ]

  pub contains-Subset :
      (xs ys : List A) → ((a : A) → contains xs a ≡ true → contains ys a ≡ true) → Subset xs ys
  unfolding contains
  contains-Subset [] ys h = tt
  contains-Subset (x ∷ xs) ys h =
      (h x (ground (arith, e.same_iff x x)), contains-Subset xs ys (λ a m. h a (ground (arith, m))))

  -- So a list of distinct items that is as long as the whole covers it,
  pub covers :
      (xs ys : List A) (a : A)
      → distinct xs ≡ true
      → Subset xs ys
      → length ys ≤ length xs
      → contains ys a ≡ true
      → contains xs a ≡ true
  covers xs ys a d s h m = elim (Bool-cases (contains xs a)) [
    | inl there ↦ there
    | inr missing ↦ absurd (
        omega (
          arith,
          length-erase a ys m,
          length-le_of_distinct xs (erase a ys) d (Subset-erase a xs ys missing s),
        ))
  ]

  Subset-erase_twice :
      (a : A) (xs ys : List A)
      → contains (erase a ys) a ≡ true
      → Subset xs ys
      → Subset xs (erase a ys)
  Subset-erase_twice a [] ys h s = tt
  Subset-erase_twice a (x ∷ xs) ys h s = elim (Bool-cases (a == x)) [
    | inl same ↦ (ground (arith, e.same_iff a x), Subset-erase_twice a xs ys h s.1)
    | inr other ↦ (ground (arith, contains-erase a x ys), Subset-erase_twice a xs ys h s.1)
  ]

  -- and where the whole holds an item twice, distinct items of it are fewer.
  pub length-lt_of_twice :
      (xs ys : List A) (a : A)
      → distinct xs ≡ true
      → Subset xs ys
      → contains ys a ≡ true
      → contains (erase a ys) a ≡ true
      → length xs < length ys
  length-lt_of_twice xs ys a d s m twice = omega (
    arith,
    length-erase a ys m,
    length-le_of_distinct xs (erase a ys) d (Subset-erase_twice a xs ys twice s),
  )

  pub contains-keep :
      (p : A → Bool) (a : A) (xs : List A) → contains (keep p xs) a ≡ (p a && contains xs a)
  unfolding contains
  contains-keep p a [] = ground arith
  contains-keep p a (x ∷ xs) = ground (arith, contains-keep p a xs, e.same_iff x a)

  pub distinct-keep :
      (p : A → Bool) (xs : List A) → distinct xs ≡ true → distinct (keep p xs) ≡ true
  unfolding distinct
  distinct-keep p [] d = refl
  distinct-keep p (x ∷ xs) d = ground (arith, distinct-keep p xs, contains-keep p x xs)

  pub Subset-keep : (p : A → Bool) (xs ys : List A) → Subset xs ys → Subset (keep p xs) (keep p ys)
  Subset-keep p [] ys s = tt
  Subset-keep p (x ∷ xs) ys s = elim (Bool-cases (p x)) [
    | inl in' ↦ rw in' (ground (arith, contains-keep p x ys), Subset-keep p xs ys s.1)
    | inr out ↦ rw out (Subset-keep p xs ys s.1)
  ]

  pub Subset-cons : (y : A) (xs ys : List A) → Subset xs ys → Subset xs (y ∷ ys)
  unfolding contains
  Subset-cons y [] ys s = tt
  Subset-cons y (x ∷ xs) ys s = (ground arith, Subset-cons y xs ys s.1)

  pub Subset-refl : (xs : List A) → Subset xs xs
  unfolding contains
  Subset-refl [] = tt
  Subset-refl (x ∷ xs) = (ground (arith, e.same_iff x x), Subset-cons x xs xs (Subset-refl xs))

  -- Adding an item to a set keeps it distinct and within the whole.
  pub distinct-insert : (a : A) (xs : List A) → distinct xs ≡ true → distinct (insert a xs) ≡ true
  unfolding distinct insert
  distinct-insert a xs d = ground arith

  pub Subset-insert :
      (a : A) (xs ys : List A) → contains ys a ≡ true → Subset xs ys → Subset (insert a xs) ys
  unfolding insert
  Subset-insert a xs ys m s = elim (Bool-cases (contains xs a)) [
    | inl there ↦ rw there s
    | inr new ↦ rw new (m, s)
  ]
