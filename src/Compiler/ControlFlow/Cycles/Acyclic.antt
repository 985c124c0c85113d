-- ===== src/Compiler/ControlFlow/Cycles/Acyclic.antt =====
-- What `three_color_cycle_detect` (crates/fusion-compiler/src/lib.rs) decides.
use fusion_router.Prelude.{
  ℕ, zero, suc, ◌+◌, ◌≤◌, ◌≡◌, ◌⊎◌, refl, subst, ap, true, false, List, [], ◌∷◌, arith, nat_beq,
  nat_beq_iff, nat_eq, pair_eq, length, Bool-cases, Option-cases, inl, inr,
}
use fusion_router.Prelude.Sets.{contains}
use fusion_router.Prelude.Counting.{distinct}
use fusion_router.Prelude.Maps.{put}
use fusion_router.Compiler.Ir.{NodeId}
use fusion_router.Compiler.ControlFlow.Cycles.{
  Color, white, grey, black, Adjacency, Colors, Walk, finished, cycle_at, out_of_fuel, color_of,
  child, walk, is_white, walk_all,
}
use fusion_router.Compiler.ControlFlow.Cycles.Adjacent.{IsKey, IsClosed, keys}
use fusion_router.Compiler.ControlFlow.Cycles.Fuel.{
  stacked_pops, white_pops, drop-next, white_pops-put, white_pops-grey, all_pops, white_pops-le,
}
use fusion_router.Compiler.ControlFlow.Cycles.Trails.{Trail, children, leads, nodes_of}
use fusion_router.Compiler.ControlFlow.Cycles.Walks.{
  Walked, elem-contains, color-put, push-Walked, skip-Walked, finish-Walked, cycle-Trail,
}

pub color-cases : (c : Color) → (c ≡ white) ⊎ ((c ≡ grey) ⊎ (c ≡ black))
color-cases white = inl refl
color-cases grey = inr (inl refl)
color-cases black = inr (inr refl)

module _ (graph : Adjacency) (closed : IsClosed graph) where
  -- A walk ends with every node that was on its stack finished, or at a node of a cycle.
  unfoldable pub Good : (NodeId → Type 0) → Walk → Type 0
  Good P (finished after) =
      (order : List NodeId) × Walked graph order after []
      × ((v : NodeId) → P v → contains order v ≡ true)
  Good P (cycle_at n) = Trail (leads graph) n n
  Good P out_of_fuel = ⊥

  abbrev Covered : List NodeId → List (NodeId × ℕ) → NodeId → Type 0
  Covered order stack v = (contains order v ≡ true) ⊎ (contains (nodes_of stack) v ≡ true)

  weaken-Good :
      (P Q : NodeId → Type 0) (w : Walk) → ((v : NodeId) → Q v → P v) → Good P w → Good Q w
  unfolding Good
  weaken-Good P Q (finished after) f h = (h.0, h.1, λ v q. h.2 v (f v q))
  weaken-Good P Q (cycle_at n) f h = h
  weaken-Good P Q out_of_fuel f h = h

  walk-Good :
      (fuel : ℕ) (colors : Colors) (stack : List (NodeId × ℕ)) (order : List NodeId)
      → Walked graph order colors stack
      → stacked_pops graph stack + white_pops colors graph ≤ fuel
      → Good (Covered order stack) (walk graph fuel colors stack)
  unfolding Good walk contains
  walk-Good fuel colors [] order h enough =
      (order, h, λ v covered. elim covered [ inl m ↦ m | inr m ↦ absurd (cc m) ])
  walk-Good zero colors ((n, i) ∷ stack) order h enough = absurd (omega arith)
  walk-Good (suc fuel) colors ((n, i) ∷ stack) order h enough =
      elim (Option-cases (child graph n i)) [
        | inl last ↦
            rw (last, walk)
              (weaken-Good (Covered (n ∷ order) stack) (Covered order ((n, i) ∷ stack)) _
                (λ v covered. ground arith)
                (walk-Good fuel (put n black colors) stack (n ∷ order)
                  (finish-Walked graph order colors n i stack last h)
                  (omega (arith, white_pops-put n black colors graph refl))))
        | inr (next, e) ↦
            let shorter = drop-next (children graph n) i next e in
            elim (color-cases (color_of colors next)) [
              | inl unseen ↦
                  let (cs, key) = closed n next (elem-contains graph (children graph n) i next e) in
                  let pays = white_pops-grey next colors graph cs unseen key in
                  let same : children graph next ≡ cs = ground (arith, key) in
                  rw (e, unseen, walk)
                    (weaken-Good (Covered order ((next, 0) ∷ (n, suc i) ∷ stack))
                      (Covered order ((n, i) ∷ stack)) _ (λ v covered. ground arith)
                      (walk-Good fuel (put next grey colors) ((next, 0) ∷ (n, suc i) ∷ stack) order
                        (push-Walked graph order colors n i next stack e unseen h)
                        (omega (arith, pays, shorter, ap length same))))
              | inr (inl on_path) ↦
                  rw (e, on_path, walk) (cycle-Trail graph order colors n i next stack e on_path h)
              | inr (inr seen) ↦
                  rw (e, seen, walk)
                    (walk-Good fuel colors ((n, suc i) ∷ stack) order
                      (skip-Walked graph order colors n i next stack e seen h)
                      (omega (arith, shorter)))
            ]
      ]

  -- One root after the other.
  unfoldable pub AllGood : List NodeId → List NodeId → Walk → Type 0
  AllGood order roots = Good (λ v. (contains order v ≡ true) ⊎ (contains roots v ≡ true))

  start-Walked :
      (order : List NodeId) (colors : Colors) (root : NodeId)
      → color_of colors root ≡ white
      → Walked graph order colors []
      → Walked graph order (put root grey colors) ((root, 0) ∷ [])
  unfolding contains distinct
  start-Walked order colors root unseen h =
      let put_color = λ (v : NodeId). color-put root v grey colors in
      record {
        finished_in_order = h.finished_in_order;
        blacks = λ v b. ground (arith, put_color v, h.blacks v);
        ordered = λ v m. ground (arith, put_color v, h.ordered v, nat_beq_iff root v);
        greys = λ v g. ground (arith, put_color v, h.greys v);
        stacked = λ v m. ground (arith, put_color v, h.stacked v);
        once = refl;
        chain = (tt, tt);
      }

  seen-root :
      (order : List NodeId) (colors : Colors) (root : NodeId)
      → is_white (color_of colors root) ≡ false
      → Walked graph order colors []
      → contains order root ≡ true
  unfolding contains
  seen-root order colors root seen h = elim (color-cases (color_of colors root)) [
    | inl unseen ↦ absurd (cc (ap is_white unseen, seen))
    | inr (inl on_path) ↦ absurd (cc (h.greys root on_path))
    | inr (inr over) ↦ h.blacks root over
  ]

  pub white-color : (c : Color) → is_white c ≡ true → c ≡ white
  white-color white h = refl
  white-color grey h = absurd (cc h)
  white-color black h = absurd (cc h)

  next_root :
      (fuel : ℕ) (root : NodeId) (others : List (NodeId × List NodeId)) (order : List NodeId)
      (w : Walk)
      → Good (Covered order ((root, 0) ∷ [])) w
      → ((after : Colors) (o : List NodeId)
          → Walked graph o after []
          → AllGood o (keys others) (walk_all graph fuel others after))
      → AllGood order (root ∷ keys others) (elim w [
        | finished after ↦ walk_all graph fuel others after
        | cycle_at node ↦ cycle_at node
        | out_of_fuel ↦ out_of_fuel
      ])
  unfolding Good AllGood contains
  next_root fuel root others order (finished after) h rest =
      weaken-Good _ _ _ (λ v q. ground (arith, h.2 v, q)) (rest after h.0 h.1)
  next_root fuel root others order (cycle_at node) h rest = h
  next_root fuel root others order out_of_fuel h rest = h

  pub walk_all-Good :
      (fuel : ℕ) (entries : List (NodeId × List NodeId)) (colors : Colors) (order : List NodeId)
      → Walked graph order colors []
      → ((v : NodeId) → contains (keys entries) v ≡ true → IsKey graph v)
      → all_pops graph ≤ fuel
      → AllGood order (keys entries) (walk_all graph fuel entries colors)
  unfolding Good AllGood walk_all contains
  walk_all-Good fuel [] colors order h known enough =
      (order, h, λ v q. elim q [ inl m ↦ m | inr m ↦ absurd (cc m) ])
  walk_all-Good fuel ((root, cs) ∷ entries) colors order h known enough =
      let later = λ (after : Colors) (o : List NodeId) (i : Walked graph o after []).
        walk_all-Good fuel entries after o i (λ v m. known v (ground arith)) enough in
      elim (Bool-cases (is_white (color_of colors root))) [
        | inl unseen ↦
            let is_unseen = white-color (color_of colors root) unseen in
            let (ds, key) = known root (ground (arith, nat_beq_iff root root)) in
            let same : children graph root ≡ ds = ground (arith, key) in
            let pays = white_pops-grey root colors graph ds is_unseen key in
            rw (unseen, walk_all)
              (next_root fuel root entries order _
                (walk-Good fuel (put root grey colors) ((root, 0) ∷ []) order
                  (start-Walked order colors root is_unseen h)
                  (omega (arith, pays, ap length same, white_pops-le colors graph, enough)))
                later)
        | inr seen ↦
            let in_order = seen-root order colors root seen h in
            rw (seen, walk_all)
              (weaken-Good _ _ _
                (λ v q. elim q [
                  | inl m ↦ inl m
                  | inr m ↦ elim (Bool-cases (nat_beq root v)) [
                    | inl here ↦ inl (
                        subst (λ k. contains order k ≡ true) ((nat_beq_iff root v).0 here) in_order)
                    | inr there ↦ inr (ground arith)
                  ]
                ])
                (later colors order h))
      ]
