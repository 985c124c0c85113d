-- ===== src/Workflow/Cycles/Searched.antt =====
-- The search of crates/fusion-ir/src/validate.rs beside that of crates/fusion-compiler/src/lib.rs, on a
-- graph that has an entry for each node.
use fusion_router.Prelude.{
  ℕ, zero, suc, ◌+◌, ◌≤◌, ◌≡◌, ◌≢◌, refl, subst, ap, true, List, [], ◌∷◌, Option, none, some, arith,
  nat_beq_iff, nat_eq, length, map, Bool-cases, Option-cases, inl, inr,
}
use fusion_router.Prelude.Sets.{contains}
use fusion_router.Prelude.Maps.{put}
use fusion_router.Compiler.ControlFlow.Cycles.{
  grey, black, Colors, color_of, is_white, Adjacency, child, Walk, finished, cycle_at, out_of_fuel,
  walk, walk_all,
}
use fusion_router.Compiler.ControlFlow.Cycles.Acyclic.{color-cases, white-color}
use fusion_router.Compiler.ControlFlow.Cycles.Adjacent.{IsKey, IsClosed}
use fusion_router.Compiler.ControlFlow.Cycles.Fuel.{
  stacked_pops, white_pops, drop-next, white_pops-put, white_pops-grey, all_pops, white_pops-le,
}
use fusion_router.Compiler.ControlFlow.Cycles.Trails.{children}
use fusion_router.Compiler.ControlFlow.Cycles.Walks.{elem-contains}
use fusion_router.Workflow.{NodeId}
use fusion_router.Workflow.Cycles.{Found, found, collect, append_found, collect_all}

-- What both searches answer: the same colours while there is no cycle, and an edge once there is one.
unfoldable Agrees : Walk → Found → Type 0
Agrees w none = ⊥
Agrees (finished after) (some (es, colors)) = (es ≡ []) × (colors ≡ after)
Agrees (cycle_at n) (some (es, colors)) = es ≢ []
Agrees out_of_fuel (some _) = Unit

found-Agrees :
    (w : Walk) (n : NodeId) (e : NodeId × NodeId) (o : Found)
    → Agrees w o
    → Agrees (cycle_at n) (found e o)
unfolding Agrees
found-Agrees w n e none h = h
found-Agrees w n e (some (es, colors)) h = λ e. cc e

module _ (graph : Adjacency) (closed : IsClosed graph) where
  collect-Agrees :
      (fuel : ℕ) (colors : Colors) (stack : List (NodeId × ℕ))
      → stacked_pops graph stack + white_pops colors graph ≤ fuel
      → Agrees (walk graph fuel colors stack) (collect graph fuel colors stack)
  unfolding Agrees walk collect
  collect-Agrees fuel colors [] enough = (refl, refl)
  collect-Agrees zero colors ((n, i) ∷ stack) enough = absurd (omega arith)
  collect-Agrees (suc fuel) colors ((n, i) ∷ stack) enough = elim (Option-cases (child graph n i)) [
    | inl last ↦
        rw (last, walk, collect)
          (collect-Agrees fuel (put n black colors) stack
            (omega (arith, white_pops-put n black colors graph refl)))
    | inr (next, e) ↦
        let shorter = drop-next (children graph n) i next e in
        elim (color-cases (color_of colors next)) [
          | inl unseen ↦
              let (cs, key) = closed n next (elem-contains graph (children graph n) i next e) in
              let pays = white_pops-grey next colors graph cs unseen key in
              let same : children graph next ≡ cs = ground (arith, key) in
              rw (e, unseen, walk, collect)
                (collect-Agrees fuel (put next grey colors) ((next, 0) ∷ (n, suc i) ∷ stack)
                  (omega (arith, pays, shorter, ap length same)))
          | inr (inl on_path) ↦
              rw (e, on_path, walk, collect)
                (found-Agrees _ n (n, next) _
                  (collect-Agrees fuel colors ((n, suc i) ∷ stack) (omega (arith, shorter))))
          | inr (inr seen) ↦
              rw (e, seen, walk, collect)
                (collect-Agrees fuel colors ((n, suc i) ∷ stack) (omega (arith, shorter)))
        ]
  ]

unfoldable pub AllAgree : Walk → Option (List (NodeId × NodeId)) → Type 0
AllAgree w none = ⊥
AllAgree (finished after) (some es) = es ≡ []
AllAgree (cycle_at n) (some es) = es ≢ []
AllAgree out_of_fuel (some _) = Unit

append_found-some :
    (n : NodeId) (w : Walk) (es : List (NodeId × NodeId)) (o : Option (List (NodeId × NodeId)))
    → es ≢ []
    → AllAgree w o
    → AllAgree (cycle_at n) (append_found es o)
unfolding AllAgree
append_found-some n w [] o h a = absurd (h refl)
append_found-some n w (e ∷ es) none h a = a
append_found-some n w (e ∷ es) (some more) h a = λ i. cc i

append_found-nothing :
    (w : Walk) (es : List (NodeId × NodeId)) (o : Option (List (NodeId × NodeId)))
    → es ≡ []
    → AllAgree w o
    → AllAgree w (append_found es o)
append_found-nothing w [] none h a = a
append_found-nothing w [] (some more) h a = a
append_found-nothing w (e ∷ es) o h a = absurd (cc h)

append_found-any :
    (w : Walk) (es : List (NodeId × NodeId)) (o : Option (List (NodeId × NodeId)))
    → AllAgree w o
    → AllAgree out_of_fuel (append_found es o)
unfolding AllAgree
append_found-any w es none a = a
append_found-any w es (some more) a = tt

abbrev pub as_roots : List NodeId → List (NodeId × List NodeId)
as_roots ids = map (λ id. (id, [])) ids

module _ (graph : Adjacency) (closed : IsClosed graph) where
  next-AllAgree :
      (fuel : ℕ) (ids : List NodeId) (w : Walk) (o : Found)
      → Agrees w o
      → ((colors : Colors)
          → AllAgree
              (walk_all graph fuel (as_roots ids) colors)
              (collect_all graph fuel ids colors))
      → AllAgree
          (elim w [
            | finished after ↦ walk_all graph fuel (as_roots ids) after
            | cycle_at n ↦ cycle_at n
            | out_of_fuel ↦ out_of_fuel
          ])
          (elim o [
            | none ↦ none
            | some (es, after) ↦ append_found es (collect_all graph fuel ids after)
          ])
  unfolding Agrees
  next-AllAgree fuel ids w none h later = absurd h
  next-AllAgree fuel ids (finished after) (some (es, colors)) h later =
      append_found-nothing _ es _ h.0 (
        subst
          (λ c. AllAgree (walk_all graph fuel (as_roots ids) c) (collect_all graph fuel ids colors))
          h.1 (later colors))
  next-AllAgree fuel ids (cycle_at n) (some (es, colors)) h later =
      append_found-some n _ es _ h (later colors)
  next-AllAgree fuel ids out_of_fuel (some (es, colors)) h later =
      append_found-any _ es _ (later colors)

  pub collect_all-AllAgree :
      (fuel : ℕ) (ids : List NodeId) (colors : Colors)
      → ((v : NodeId) → contains ids v ≡ true → IsKey graph v)
      → all_pops graph ≤ fuel
      → AllAgree (walk_all graph fuel (as_roots ids) colors) (collect_all graph fuel ids colors)
  unfolding AllAgree walk_all collect_all contains
  collect_all-AllAgree fuel [] colors known enough = refl
  collect_all-AllAgree fuel (id ∷ ids) colors known enough =
      let later = λ (after : Colors).
        collect_all-AllAgree fuel ids after (λ v m. known v (ground (arith, m))) enough in
      elim (Bool-cases (is_white (color_of colors id))) [
        | inl unseen ↦
            let is_unseen = white-color graph closed (color_of colors id) unseen in
            let (ds, key) = known id (ground (arith, nat_beq_iff id id)) in
            let same : children graph id ≡ ds = ground (arith, key) in
            let pays = white_pops-grey id colors graph ds is_unseen key in
            rw (unseen, walk_all, collect_all)
              (next-AllAgree fuel ids _ _
                (collect-Agrees graph closed fuel (put id grey colors) ((id, 0) ∷ [])
                  (omega (arith, pays, ap length same, white_pops-le colors graph, enough)))
                later)
        | inr seen ↦ rw (seen, walk_all, collect_all) (later colors)
      ]
