-- ===== src/Compiler/ControlFlow/Cycles/Walks.antt =====
-- The invariant of a walk of `three_color_cycle_detect` (crates/fusion-compiler/src/lib.rs).
use fusion_router.Prelude.{
  ℕ, zero, suc, ◌≡◌, ◌⊎◌, refl, sym, subst, true, List, [], ◌∷◌, none, some, arith, nat_beq,
  nat_beq_iff, nat_eq, take, get_elem?, All, Bool-cases, inl, inr, if◌then◌else◌,
}
use fusion_router.Prelude.Sets.{contains}
use fusion_router.Prelude.Counting.{distinct}
use fusion_router.Prelude.Maps.{put, get-put}
use fusion_router.Compiler.Ir.{NodeId}
use fusion_router.Compiler.ControlFlow.Cycles.{
  Color, white, grey, black, Adjacency, Colors, color_of, child,
}
use fusion_router.Compiler.ControlFlow.Cycles.Trails.{
  Trail, one, more, children, leads, Finished, Below, Chain, nodes_of, Below-Trail,
}

pub color-put :
    (k v : NodeId) (c : Color) (colors : Colors)
    → color_of (put k c colors) v ≡ (if nat_beq k v then c else color_of colors v)
color-put k v c colors = ground (arith, get-put k v c colors)

module _ (graph : Adjacency) where
  -- What a walk keeps.
  pub record Walked (order : List NodeId) (colors : Colors) (stack : List (NodeId × ℕ))
      : Type 0 where
    pub finished_in_order : Finished graph order
    pub blacks : (v : NodeId) → color_of colors v ≡ black → contains order v ≡ true
    pub ordered : (v : NodeId) → contains order v ≡ true → color_of colors v ≡ black
    pub greys : (v : NodeId) → color_of colors v ≡ grey → contains (nodes_of stack) v ≡ true
    pub stacked : (v : NodeId) → contains (nodes_of stack) v ≡ true → color_of colors v ≡ grey
    pub once : distinct (nodes_of stack) ≡ true
    pub chain : Chain graph order stack

  -- A white child is pushed.
  take-next :
      (xs : List NodeId) (i : ℕ) (x : NodeId) (P : NodeId → Type 0)
      → get_elem? xs i ≡ some x
      → All P (take i xs)
      → P x
      → All P (take (suc i) xs)
  take-next [] i x P e h p = absurd (cc e)
  take-next (y ∷ xs) zero x P e h p = (subst P (ground arith) p, tt)
  take-next (y ∷ xs) (suc i) x P e h p = (h.0, take-next xs i x P e h.1 p)

  pub elem-contains :
      (xs : List NodeId) (i : ℕ) (x : NodeId) → get_elem? xs i ≡ some x → contains xs x ≡ true
  unfolding contains
  elem-contains [] i x e = absurd (cc e)
  elem-contains (y ∷ xs) zero x e = ground (arith, nat_beq_iff y x)
  elem-contains (y ∷ xs) (suc i) x e = ground (arith, elem-contains xs i x e)

  All-or :
      (P : NodeId → Type 0) (n : NodeId) (xs : List NodeId) → All P xs → All (λ w. P w ⊎ (w ≡ n)) xs
  All-or P n [] h = tt
  All-or P n (x ∷ xs) h = (inl h.0, All-or P n xs h.1)

  pub push-Walked :
      (order : List NodeId) (colors : Colors) (n i next : NodeId) (stack : List (NodeId × ℕ))
      → child graph n i ≡ some next
      → color_of colors next ≡ white
      → Walked order colors ((n, i) ∷ stack)
      → Walked order (put next grey colors) ((next, 0) ∷ (n, suc i) ∷ stack)
  unfolding contains distinct
  push-Walked order colors n i next stack e unseen h =
      let put_color = λ (v : NodeId). color-put next v grey colors in
      record {
        finished_in_order = h.finished_in_order;
        blacks = λ v b. ground (arith, put_color v, h.blacks v);
        ordered = λ v m. ground (arith, put_color v, h.ordered v, nat_beq_iff next v);
        greys = λ v g. ground (arith, put_color v, h.greys v);
        stacked = λ v m. ground (arith, put_color v, h.stacked v);
        once = ground (arith, h.once, h.stacked next);
        chain = (
          tt,
          (
            elem-contains (children graph n) i next e,
            take-next (children graph n) i next (λ w. (contains order w ≡ true) ⊎ (w ≡ next)) e
                (All-or (λ w. contains order w ≡ true) next (take i (children graph n)) h.chain.0)
                (inr refl),
            h.chain.1,
          ),
        );
      }

  -- A black child is skipped.
  pub skip-Walked :
      (order : List NodeId) (colors : Colors) (n i next : NodeId) (stack : List (NodeId × ℕ))
      → child graph n i ≡ some next
      → color_of colors next ≡ black
      → Walked order colors ((n, i) ∷ stack)
      → Walked order colors ((n, suc i) ∷ stack)
  skip-Walked order colors n i next stack e seen h = record {
    finished_in_order = h.finished_in_order;
    blacks = h.blacks;
    ordered = h.ordered;
    greys = h.greys;
    stacked = h.stacked;
    once = h.once;
    chain = (
      take-next (children graph n) i next (λ w. contains order w ≡ true) e h.chain.0
          (h.blacks next seen),
      h.chain.1,
    );
  }

  -- A node without further children is finished.
  take-contains :
      (order xs : List NodeId) (i : ℕ) (w : NodeId)
      → get_elem? xs i ≡ none
      → All (λ v. contains order v ≡ true) (take i xs)
      → contains xs w ≡ true
      → contains order w ≡ true
  unfolding contains
  take-contains order [] i w e h m = absurd (cc m)
  take-contains order (x ∷ xs) zero w e h m = absurd (cc e)
  take-contains order (x ∷ xs) (suc i) w e h m = elim (Bool-cases (nat_beq x w)) [
    | inl here ↦ subst (λ k. contains order k ≡ true) ((nat_beq_iff x w).0 here) h.0
    | inr there ↦ take-contains order xs i w e h.1 (ground arith)
  ]

  Below-cons :
      (order : List NodeId) (x n : NodeId) (stack : List (NodeId × ℕ))
      → Below graph order n stack
      → Below graph (x ∷ order) n stack
  unfolding contains
  Below-cons order x n [] h = tt
  Below-cons order x n ((m, k) ∷ stack) h =
      (h.0, widen order x n (take k (children graph m)) h.1, Below-cons order x m stack h.2)
    where
      widen :
          (order : List NodeId) (x n : NodeId) (xs : List NodeId)
          → All (λ w. (contains order w ≡ true) ⊎ (w ≡ n)) xs
          → All (λ w. (contains (x ∷ order) w ≡ true) ⊎ (w ≡ n)) xs
      widen order x n [] h = tt
      widen order x n (y ∷ ys) h =
          (elim h.0 [ inl m ↦ inl (ground arith) | inr same ↦ inr same ], widen order x n ys h.1)

  popped-Chain :
      (order : List NodeId) (n : NodeId) (stack : List (NodeId × ℕ))
      → Below graph order n stack
      → Chain graph (n ∷ order) stack
  unfolding contains
  popped-Chain order n [] h = tt
  popped-Chain order n ((m, k) ∷ stack) h =
      (above order n (take k (children graph m)) h.1, Below-cons order n m stack h.2)
    where
      above :
          (order : List NodeId) (n : NodeId) (xs : List NodeId)
          → All (λ w. (contains order w ≡ true) ⊎ (w ≡ n)) xs
          → All (λ w. contains (n ∷ order) w ≡ true) xs
      above order n [] h = tt
      above order n (y ∷ ys) h = (ground (arith, h.0, nat_beq_iff n y), above order n ys h.1)

  pub finish-Walked :
      (order : List NodeId) (colors : Colors) (n i : NodeId) (stack : List (NodeId × ℕ))
      → child graph n i ≡ none
      → Walked order colors ((n, i) ∷ stack)
      → Walked (n ∷ order) (put n black colors) stack
  unfolding contains distinct
  finish-Walked order colors n i stack e h =
      let put_color = λ (v : NodeId). color-put n v black colors in
      let on_top : color_of colors n ≡ grey = h.stacked n (ground (arith, nat_beq_iff n n)) in
      record {
        finished_in_order = (
          ground (arith, h.ordered n),
          λ w m. take-contains order (children graph n) i w e h.chain.0 m,
          h.finished_in_order,
        );
        blacks = λ v b. ground (arith, put_color v, h.blacks v);
        ordered = λ v m. ground (arith, put_color v, h.ordered v);
        greys = λ v g. ground (arith, put_color v, h.greys v);
        stacked = λ v m. ground (arith, put_color v, h.stacked v, h.once, nat_beq_iff n v);
        once = ground (arith, h.once);
        chain = popped-Chain order n stack h.chain.1;
      }

  -- An edge into the stack closes a cycle.
  pub cycle-Trail :
      (order : List NodeId) (colors : Colors) (n i next : NodeId) (stack : List (NodeId × ℕ))
      → child graph n i ≡ some next
      → color_of colors next ≡ grey
      → Walked order colors ((n, i) ∷ stack)
      → Trail (leads graph) n n
  unfolding contains
  cycle-Trail order colors n i next stack e on_path h =
      let edge = elem-contains (children graph n) i next e in
      elim (Bool-cases (nat_beq n next)) [
        | inl here ↦
            one (subst (λ k. leads graph n k ≡ true) (sym ((nat_beq_iff n next).0 here)) edge)
        | inr there ↦
            more edge (
              Below-Trail graph order n next stack h.chain.1 (ground (arith, h.greys next on_path)))
      ]
