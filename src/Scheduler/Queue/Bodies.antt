-- ===== src/Scheduler/Queue/Bodies.antt =====
-- The bodies of loops: what the search of `WorkQueue::new` finds from a loop head.
use fusion_router.Prelude.{
  ℕ, zero, suc, ◌+◌, ◌≤◌, ◌≡◌, ◌↔◌, ◌⊎◌, inl, inr, refl, sym, subst, ◌∙◌, Bool, true, ◌||◌, nat_beq,
  nat_beq_iff, nat_eq, pair_eq, List, [], ◌∷◌, length, All, Bool-cases, arith,
}
use fusion_router.Prelude.Sets.{contains}
use fusion_router.Prelude.Counting.{distinct, length-le_of_distinct}
use fusion_router.Prelude.Maps.{Map, get_or}
use fusion_router.Scheduler.Graph.{NodeId}
use fusion_router.Scheduler.Queue.{push_unseen, reach_from}
use fusion_router.Scheduler.Queue.Pops.{
  Targets, ends, push-seen, push-stack, push-only, Fits, push-Fits, push-length,
}

-- The nodes that control flow arrives at from a loop head, in one or more steps.
pub data Arrives (leads : NodeId → NodeId → Bool) (head : NodeId) : NodeId → Type 0 where
  first : (w : NodeId) → leads head w ≡ true → Arrives leads head w
  later : (u w : NodeId) → Arrives leads head u → leads u w ≡ true → Arrives leads head w

pub Arrives-along :
    (p q : NodeId → NodeId → Bool) (head w : NodeId)
    → ((u v : NodeId) → p u v ≡ q u v)
    → Arrives p head w
    → Arrives q head w
Arrives-along p q head w same (first _ l) = first w (sym (same head w) ∙ l)
Arrives-along p q head w same (later u _ a l) =
    later u w (Arrives-along p q head u same a) (sym (same u w) ∙ l)

-- The steps along the index.
module _ (out : Map NodeId Targets) where
  abbrev pub leads : NodeId → NodeId → Bool
  leads u w = contains (ends (get_or u [] out)) w

  module _ (head : NodeId) where
    -- Whatever was seen, or is the head, waits on the stack or had all its targets seen.
    abbrev Handled : List NodeId → List NodeId → Type 0
    Handled seen stack =
        (u w : NodeId)
        → leads u w ≡ true
        → (nat_beq head u || contains seen u) ≡ true
        → (contains stack u || contains seen w) ≡ true

    pop-Handled :
        (current : NodeId) (seen stack : List NodeId)
        → Handled seen (current ∷ stack)
        → Handled
            (push_unseen (get_or current [] out) seen stack).0
            (push_unseen (get_or current [] out) seen stack).1
    unfolding contains
    pop-Handled current seen stack inv u w l m =
        let ts = get_or current [] out in
        elim (Bool-cases (nat_beq current u)) [
          | inl same ↦
              let from_current : leads current w ≡ true =
                subst (λ x. leads x w ≡ true) (sym ((nat_beq_iff current u).0 same)) l in
              ground (arith, push-seen ts seen stack w)
          | inr other ↦ ground (
            arith,
            inv u w l,
            push-seen ts seen stack u,
            push-seen ts seen stack w,
            (push-stack ts seen stack u).0,
            (push-stack ts seen stack u).1,
          )
        ]

    -- Everything seen is arrived at; everything on the stack is, or is the head.
    abbrev Sound : List NodeId → Type 0
    Sound xs = (w : NodeId) → contains xs w ≡ true → Arrives leads head w

    abbrev SoundStack : List NodeId → Type 0
    SoundStack xs = (w : NodeId) → contains xs w ≡ true → (head ≡ w) ⊎ Arrives leads head w

    pop-Sound :
        (current : NodeId) (seen stack : List NodeId)
        → Sound seen
        → SoundStack (current ∷ stack)
        → Sound (push_unseen (get_or current [] out) seen stack).0
    unfolding contains
    pop-Sound current seen stack s k w m = elim (Bool-cases (contains seen w)) [
      | inl old ↦ s w old
      | inr new ↦
          let l : leads current w ≡ true =
            ground (arith, push-seen (get_or current [] out) seen stack w) in
          elim (k current (ground (arith, nat_beq_iff current current))) [
            | inl e ↦ first w (subst (λ x. leads x w ≡ true) (sym e) l)
            | inr a ↦ later current w a l
          ]
    ]

    pop-SoundStack :
        (current : NodeId) (seen stack : List NodeId)
        → Sound seen
        → SoundStack (current ∷ stack)
        → SoundStack (push_unseen (get_or current [] out) seen stack).1
    unfolding contains
    pop-SoundStack current seen stack s k w m = elim (Bool-cases (contains stack w)) [
      | inl old ↦ k w (ground arith)
      | inr new ↦ inr (
          pop-Sound current seen stack s k w
            (ground (arith, push-only (get_or current [] out) seen stack w m)))
    ]

    module _ (known : List NodeId)
        (within : (u : NodeId) → All (λ t. contains known t.0 ≡ true) (get_or u [] out)) where
      -- The search ends within its fuel: what it returns is closed under the index and sound.
      reach_from_lem :
          (fuel : ℕ) (seen stack : List NodeId)
          → Fits known seen
          → length stack + length known ≤ fuel + length seen
          → Handled seen stack
          → Sound seen
          → SoundStack stack
          → Handled (reach_from out fuel seen stack) [] × Sound (reach_from out fuel seen stack)
      unfolding reach_from
      reach_from_lem zero seen [] f enough h s k = (h, s)
      reach_from_lem zero seen (current ∷ stack) f enough h s k =
          absurd (omega (arith, length-le_of_distinct seen known f.once f.within))
      reach_from_lem (suc fuel) seen [] f enough h s k = (h, s)
      reach_from_lem (suc fuel) seen (current ∷ stack) f enough h s k =
          let ts = get_or current [] out in
          reach_from_lem fuel (push_unseen ts seen stack).0 (push_unseen ts seen stack).1
            (push-Fits known ts seen stack (within current) f)
            (omega (arith, push-length ts seen stack)) (pop-Handled current seen stack h)
            (pop-Sound current seen stack s k) (pop-SoundStack current seen stack s k)

      Arrives-closed :
          (found : List NodeId)
          → Handled found []
          → (w : NodeId) → Arrives leads head w
          → contains found w ≡ true
      unfolding contains
      Arrives-closed found h w (first _ l) = h head w l (ground (arith, nat_beq_iff head head))
      Arrives-closed found h w (later u _ a l) =
          h u w l (ground (arith, Arrives-closed found h u a))

      pub search-Arrives :
          (fuel : ℕ)
          → suc (length known) ≤ fuel
          → (w : NodeId)
          → (contains (reach_from out fuel [] (head ∷ [])) w ≡ true) ↔ Arrives leads head w
      unfolding contains distinct
      search-Arrives fuel enough w =
          let found =
            reach_from_lem fuel [] (head ∷ []) (record { once = refl; within = tt }) (omega arith)
              (λ u v l m. ground arith) (λ v m. absurd (cc m))
              (λ v m. inl ((nat_beq_iff head v).0 (ground arith))) in
          (found.1 w, Arrives-closed (reach_from out fuel [] (head ∷ [])) found.0 w)
