-- ===== src/Compiler/ControlFlow/Cycles/Fuel.antt =====
-- Three rounds per edge are enough for a walk of `three_color_cycle_detect`
-- (crates/fusion-compiler/src/lib.rs).
use fusion_router.Prelude.{
  ℕ, zero, suc, ◌+◌, ◌*◌, ◌≤◌, ◌≡◌, refl, sym, ap, ◌∙◌, true, false, List, [], ◌∷◌, ◌++◌, some,
  arith, nat_beq, nat_beq_iff, nat_eq, length, length-append, drop, get_elem?, Bool-cases, inl, inr,
  if◌then◌else◌,
}
use fusion_router.Prelude.Maps.{get, get_or, put, push_at, touch}
use fusion_router.Compiler.Ir.{NodeId}
use fusion_router.Compiler.ControlFlow.Cycles.{
  Color, white, grey, Adjacency, Colors, adjacency, color_of, is_white,
}
use fusion_router.Compiler.ControlFlow.Cycles.Trails.{children}
use fusion_router.Compiler.ControlFlow.Cycles.Walks.{color-put}

-- The pops that the nodes on the stack still take, and those of the nodes not yet seen.
abbrev pub stacked_pops : Adjacency → List (NodeId × ℕ) → ℕ
stacked_pops graph [] = 0
stacked_pops graph ((n, i) ∷ stack) =
    suc (length (drop i (children graph n))) + stacked_pops graph stack

abbrev pub white_pops : Colors → Adjacency → ℕ
white_pops colors [] = 0
white_pops colors ((k, cs) ∷ entries) =
    (if is_white (color_of colors k) then suc (length cs) else 0) + white_pops colors entries

pub drop-next :
    (xs : List NodeId) (i : ℕ) (x : NodeId)
    → get_elem? xs i ≡ some x
    → length (drop i xs) ≡ suc (length (drop (suc i) xs))
drop-next [] i x e = absurd (cc e)
drop-next (y ∷ xs) zero x e = refl
drop-next (y ∷ xs) (suc i) x e = drop-next xs i x e

pub white_pops-put :
    (k : NodeId) (c : Color) (colors : Colors) (entries : Adjacency)
    → is_white c ≡ false
    → white_pops (put k c colors) entries ≤ white_pops colors entries
white_pops-put k c colors [] h = omega arith
white_pops-put k c colors ((j, cs) ∷ entries) h =
    let rest = white_pops-put k c colors entries h in
    elim (Bool-cases (nat_beq k j)) [
      | inl here ↦
          let now : is_white (color_of (put k c colors) j) ≡ false =
            rw (color-put k j c colors, here) h in
          rw now (omega (arith, rest))
      | inr there ↦
          let same : color_of (put k c colors) j ≡ color_of colors j =
            rw (color-put k j c colors, there) refl in
          rw same (omega (arith, rest))
    ]

-- Greying a white node pays for its pops.
pub white_pops-grey :
    (k : NodeId) (colors : Colors) (entries : Adjacency) (cs : List NodeId)
    → color_of colors k ≡ white
    → get k entries ≡ some cs
    → white_pops (put k grey colors) entries + suc (length cs) ≤ white_pops colors entries
unfolding get
white_pops-grey k colors [] cs w e = absurd (cc e)
white_pops-grey k colors ((j, ds) ∷ entries) cs w e = elim (Bool-cases (nat_beq j k)) [
  | inl here ↦
      let same : j ≡ k = (nat_beq_iff j k).0 here in
      let kept : ds ≡ cs = ground arith in
      let now : is_white (color_of (put k grey colors) j) ≡ false =
        rw (color-put k j grey colors, (nat_beq_iff k j).1 (sym same)) refl in
      let was : is_white (color_of colors j) ≡ true = ap is_white (ap (color_of colors) same ∙ w) in
      rw (now, was) (omega (arith, ap length kept, white_pops-put k grey colors entries refl))
  | inr there ↦
      let apart : nat_beq k j ≡ false = ground (arith, nat_beq_iff k j, nat_beq_iff j k) in
      let same : color_of (put k grey colors) j ≡ color_of colors j =
        rw (color-put k j grey colors, apart) refl in
      rw same (omega (arith, white_pops-grey k colors entries cs w (ground arith)))
]

-- Each edge of the graph adds at most three pops.
abbrev pub all_pops : Adjacency → ℕ
all_pops [] = 0
all_pops ((k, cs) ∷ entries) = suc (length cs) + all_pops entries

pub white_pops-le :
    (colors : Colors) (entries : Adjacency) → white_pops colors entries ≤ all_pops entries
white_pops-le colors [] = omega arith
white_pops-le colors ((k, cs) ∷ entries) = ground (arith, white_pops-le colors entries)

put-pops :
    (k : NodeId) (cs : List NodeId) (m : Adjacency)
    → all_pops (put k cs m) + length (get_or k [] m) ≤ all_pops m + suc (length cs)
unfolding get put
put-pops k cs [] = omega arith
put-pops k cs ((j, ds) ∷ m) = ground (arith, put-pops k cs m)

push_at-pops : (k v : NodeId) (m : Adjacency) → all_pops (push_at k v m) ≤ all_pops m + 2
unfolding push_at
push_at-pops k v m =
    omega (arith, put-pops k (get_or k [] m ++ v ∷ []) m, length-append (get_or k [] m) (v ∷ []))

pub touch-pops : (k : NodeId) (m : Adjacency) → all_pops (touch k [] m) ≤ all_pops m + 1
unfolding touch
touch-pops k m = ground (arith, put-pops k [] m)

pub adjacency-pops :
    (edges : List (NodeId × NodeId)) (m : Adjacency)
    → all_pops (adjacency edges m) ≤ all_pops m + 3 * length edges
unfolding adjacency
adjacency-pops [] m = omega arith
adjacency-pops ((from, to) ∷ edges) m = omega (
  arith,
  adjacency-pops edges (touch to [] (push_at from to m)),
  touch-pops to (push_at from to m),
  push_at-pops from to m,
)
