-- ===== src/Workflow/Cycles/Decided.antt =====
-- What `non_loop_cycle_back_edges` of crates/fusion-ir/src/validate.rs decides.
use fusion_router.Prelude.{
  ℕ, zero, suc, ◌+◌, ◌*◌, ◌≤◌, ◌≡◌, ◌≢◌, ◌↔◌, refl, sym, subst, ap, ◌∙◌, Bool, true, not, ◌&&◌,
  List, [], ◌∷◌, ◌++◌, Option, none, some, arith, nat_beq, nat_beq_iff, nat_eq, pair_eq, length,
  length-keep-le, length-map, map, all, Bool-cases, Option-cases, inl, inr,
}
use fusion_router.Prelude.Sets.{contains}
use fusion_router.Prelude.Maps.{put, get-put, push_at, touch}
use fusion_router.Compiler.ControlFlow.Cycles.{
  Adjacency, Color, white, grey, black, Colors, color_of, is_white, child, Walk, finished, cycle_at,
  out_of_fuel, walk_all,
}
use fusion_router.Compiler.ControlFlow.Cycles as Search
use fusion_router.Compiler.ControlFlow.Cycles.Acyclic.{Good, AllGood, color-cases, walk_all-Good}
use fusion_router.Compiler.ControlFlow.Cycles.Adjacent.{
  IsClosed, adjacency-IsClosed, keys, IsKey, touch-children, touch-IsKey, touched-IsKey,
}
use fusion_router.Compiler.ControlFlow.Cycles.Decided.{
  Trail-map, Trail-first, joined, graph-joined, nothing-Walked, empty-IsClosed,
}
use fusion_router.Compiler.ControlFlow.Cycles.Fuel.{all_pops, adjacency-pops, touch-pops}
use fusion_router.Compiler.ControlFlow.Cycles.Trails.{Trail, children, leads, Finished-acyclic}
use fusion_router.Workflow.{NodeId, WorkflowNode, WorkflowEdge, WorkflowIr, is_loop}
use fusion_router.Workflow.Structure.{adjacency}
use fusion_router.Workflow.Structure.Accepted.{ids_of}
use fusion_router.Workflow.Cycles.{
  Found, found, collect, append_found, collect_all, forward, non_loop_cycle_back_edges,
}
use fusion_router.Workflow.Cycles.Searched.{AllAgree, as_roots, collect_all-AllAgree}

abbrev pub ends : List WorkflowEdge → List (NodeId × NodeId)
ends edges = map (λ (e : WorkflowEdge). (e.from, e.to)) edges

-- The same graph with an entry for each of some nodes.
abbrev touch_ids : List NodeId → Adjacency → Adjacency
touch_ids [] m = m
touch_ids (id ∷ ids) m = touch_ids ids (touch id [] m)

touch_ids-children :
    (ids : List NodeId) (u : NodeId) (m : Adjacency) → children (touch_ids ids m) u ≡ children m u
touch_ids-children [] u m = refl
touch_ids-children (id ∷ ids) u m = touch_ids-children ids u (touch id [] m) ∙ touch-children id u m

touch_ids-kept :
    (ids : List NodeId) (v : NodeId) (m : Adjacency) → IsKey m v → IsKey (touch_ids ids m) v
touch_ids-kept [] v m h = h
touch_ids-kept (id ∷ ids) v m h = touch_ids-kept ids v (touch id [] m) (touch-IsKey id v m h)

touch_ids-IsKey :
    (ids : List NodeId) (v : NodeId) (m : Adjacency)
    → contains ids v ≡ true
    → IsKey (touch_ids ids m) v
unfolding contains
touch_ids-IsKey [] v m h = absurd (cc h)
touch_ids-IsKey (id ∷ ids) v m h = elim (Bool-cases (nat_beq id v)) [
  | inl here ↦
      touch_ids-kept ids v (touch id [] m)
        (subst (IsKey (touch id [] m)) ((nat_beq_iff id v).0 here) (touched-IsKey id m))
  | inr there ↦ touch_ids-IsKey ids v (touch id [] m) (ground (arith, h, there))
]

touch_ids-IsClosed : (ids : List NodeId) (m : Adjacency) → IsClosed m → IsClosed (touch_ids ids m)
touch_ids-IsClosed ids m h u v e =
    touch_ids-kept ids v m (h u v (ap (λ xs. contains xs v) (sym (touch_ids-children ids u m)) ∙ e))

touch_ids-pops :
    (ids : List NodeId) (m : Adjacency) → all_pops (touch_ids ids m) ≤ all_pops m + length ids
touch_ids-pops [] m = omega arith
touch_ids-pops (id ∷ ids) m = omega (arith, touch_ids-pops ids (touch id [] m), touch-pops id m)

pushed-children :
    (k x u : NodeId) (m n : Adjacency)
    → children m u ≡ children n u
    → children m k ≡ children n k
    → children (push_at k x m) u ≡ children (push_at k x n) u
unfolding push_at
pushed-children k x u m n at_u at_k = ground (
  arith,
  get-put k u (children m k ++ x ∷ []) m,
  get-put k u (children n k ++ x ∷ []) n,
  at_u,
  at_k,
)

adjacency-children :
    (edges : List WorkflowEdge) (m n : Adjacency)
    → ((u : NodeId) → children m u ≡ children n u)
    → (u : NodeId) → children (adjacency edges m) u ≡ children (Search.adjacency (ends edges) n) u
unfolding adjacency Search.adjacency
adjacency-children [] m n h u = h u
adjacency-children (e ∷ edges) m n h u =
    let pushed = push_at e.from e.to n in
    adjacency-children edges (push_at e.from e.to m) (touch e.to [] pushed)
      (λ v. pushed-children e.from e.to v m n (h v) (h e.from) ∙ sym (touch-children e.to v pushed))
      u

-- The search reads a graph by the children of its nodes.
collect-same :
    (m n : Adjacency)
    → ((u : NodeId) → children m u ≡ children n u)
    → (fuel : ℕ) (colors : Colors) (stack : List (NodeId × ℕ))
    → collect m fuel colors stack ≡ collect n fuel colors stack
unfolding collect
collect-same m n h fuel colors [] = refl
collect-same m n h zero colors (_ ∷ _) = refl
collect-same m n h (suc fuel) colors ((x, i) ∷ stack) =
    let same : child m x i ≡ child n x i = rw (h x) refl in
    elim (Option-cases (child n x i)) [
      | inl last ↦
          rw (collect, same ∙ last, last) (collect-same m n h fuel (put x black colors) stack)
      | inr (next, e) ↦ elim (color-cases (color_of colors next)) [
        | inl unseen ↦
            rw (collect, same ∙ e, e, unseen)
              (collect-same m n h fuel (put next grey colors) ((next, 0) ∷ (x, suc i) ∷ stack))
        | inr (inl on_path) ↦
            rw (collect, same ∙ e, e, on_path)
              (ap (found (x, next)) (collect-same m n h fuel colors ((x, suc i) ∷ stack)))
        | inr (inr seen) ↦
            rw (collect, same ∙ e, e, seen) (collect-same m n h fuel colors ((x, suc i) ∷ stack))
      ]
    ]

next-same :
    (o : Found) (f g : Colors → Option (List (NodeId × NodeId)))
    → ((colors : Colors) → f colors ≡ g colors)
    → (elim o [ none ↦ none | some (es, after) ↦ append_found es (f after) ])
      ≡ (elim o [ none ↦ none | some (es, after) ↦ append_found es (g after) ])
next-same none f g h = refl
next-same (some (es, after)) f g h = ap (append_found es) (h after)

collect_all-same :
    (m n : Adjacency)
    → ((u : NodeId) → children m u ≡ children n u)
    → (fuel : ℕ) (ids : List NodeId) (colors : Colors)
    → collect_all m fuel ids colors ≡ collect_all n fuel ids colors
unfolding collect_all
collect_all-same m n h fuel [] colors = refl
collect_all-same m n h fuel (id ∷ ids) colors =
    let one = collect-same m n h fuel (put id grey colors) ((id, 0) ∷ []) in
    let rest = collect_all-same m n h fuel ids in
    elim (Bool-cases (is_white (color_of colors id))) [
      | inl unseen ↦
          rw (collect_all, unseen, one)
            (next-same (collect n fuel (put id grey colors) ((id, 0) ∷ [])) (collect_all m fuel ids)
              (collect_all n fuel ids) rest)
      | inr seen ↦ rw (collect_all, seen) (rest colors)
    ]

keys-as_roots : (ids : List NodeId) → keys (as_roots ids) ≡ ids
keys-as_roots [] = refl
keys-as_roots (id ∷ ids) = ap (λ xs. id ∷ xs) (keys-as_roots ids)

-- Every end of an edge is one of the nodes.
abbrev pub are_known : List NodeId → List WorkflowEdge → Bool
are_known ids edges = all (λ (e : WorkflowEdge). contains ids e.from && contains ids e.to) edges

joined-known :
    (ids : List NodeId) (edges : List WorkflowEdge) (u v : NodeId)
    → are_known ids edges ≡ true
    → joined (ends (forward edges)) u v ≡ true
    → contains ids u ≡ true
unfolding contains
joined-known ids [] u v h j = absurd (cc j)
joined-known ids (e ∷ edges) u v h j = elim (Bool-cases (is_loop e.kind)) [
  | inl skipped ↦ joined-known ids edges u v (ground arith) (rw skipped at j)
  | inr kept ↦ elim (Bool-cases (nat_beq e.from u)) [
    | inl here ↦ subst (λ k. contains ids k ≡ true) ((nat_beq_iff e.from u).0 here) (ground arith)
    | inr there ↦
        let rest = rw kept at j in
        joined-known ids edges u v (ground arith) (ground (arith, rest, there))
  ]
]

abbrev pub Decides : WorkflowIr → Option (List (NodeId × NodeId)) → Type 0
Decides ir o =
    (o ≢ none) × ((o ≡ some []) ↔ ((v : NodeId) → Trail (joined (ends (forward ir.edges))) v v → ⊥))

decide :
    (ir : WorkflowIr) (graph : Adjacency) (closed : IsClosed graph) (w : Walk)
    (o : Option (List (NodeId × NodeId)))
    → ((u v : NodeId) → leads graph u v ≡ joined (ends (forward ir.edges)) u v)
    → are_known (ids_of ir.nodes) ir.edges ≡ true
    → AllGood graph closed [] (ids_of ir.nodes) w
    → AllAgree w o
    → Decides ir o
unfolding Good AllGood AllAgree
decide ir graph closed w none same known good agree = absurd agree
decide ir graph closed (finished after) (some es) same known good agree = (
  λ e. cc e,
  (
    λ _ v t.
        let cycle = Trail-map _ (leads graph) v v (λ x y e. same x y ∙ e) t in
        let (x, edge) = Trail-first _ v v t in
        let member = joined-known (ids_of ir.nodes) ir.edges v x known edge in
        Finished-acyclic graph good.0 v good.1.finished_in_order (good.2 v (inr member)) cycle,
    λ _. ap some agree,
  ),
)
decide ir graph closed (cycle_at n) (some es) same known good agree =
    let cycle = Trail-map (leads graph) _ n n (λ x y e. sym (same x y) ∙ e) good in
    (λ e. cc e, (λ e. absurd (agree (cc e)), λ acyclic. absurd (acyclic n cycle)))
decide ir graph closed out_of_fuel (some es) same known good agree = absurd good

-- The answer, beside that of the search that stops at the first cycle.
searched :
    (ir : WorkflowIr)
    → (graph : Adjacency) × (closed : IsClosed graph) × (w : Walk) × ((u v : NodeId)
        → leads graph u v ≡ joined (ends (forward ir.edges)) u v)
      × AllGood graph closed [] (ids_of ir.nodes) w
      × AllAgree w (non_loop_cycle_back_edges ir)
unfolding non_loop_cycle_back_edges
searched ir =
    let ids = ids_of ir.nodes in
    let pairs = ends (forward ir.edges) in
    let plain = Search.adjacency pairs [] in
    let graph = touch_ids ids plain in
    let closed = touch_ids-IsClosed ids plain (adjacency-IsClosed pairs [] empty-IsClosed) in
    let fuel = length ir.nodes + 3 * length ir.edges in
    let children_same : (u : NodeId)
        → children (adjacency (forward ir.edges) []) u ≡ children graph u =
      λ u.
        adjacency-children (forward ir.edges) [] [] (λ _. refl) u
        ∙ sym (touch_ids-children ids u plain) in
    let same : (u v : NodeId) → leads graph u v ≡ joined pairs u v =
      λ u v. ap (λ xs. contains xs v) (touch_ids-children ids u plain) ∙ graph-joined pairs u v in
    let enough : all_pops graph ≤ fuel = omega (
      arith,
      touch_ids-pops ids plain,
      adjacency-pops pairs [],
      length-map {B = NodeId × NodeId} (λ (e : WorkflowEdge). (e.from, e.to)) (forward ir.edges),
      length-map (λ (n : WorkflowNode). n.id) ir.nodes,
      length-keep-le (λ (e : WorkflowEdge). not (is_loop e.kind)) ir.edges,
    ) in
    let keyed : (v : NodeId) → contains ids v ≡ true → IsKey graph v =
      λ v. touch_ids-IsKey ids v plain in
    let good =
      walk_all-Good graph closed fuel (as_roots ids) [] [] (nothing-Walked graph)
        (λ v m. keyed v (subst (λ xs. contains xs v ≡ true) (keys-as_roots ids) m)) enough in
    let agree = collect_all-AllAgree graph closed fuel ids [] keyed enough in
    let w = walk_all graph fuel (as_roots ids) [] in
    (
      graph,
      closed,
      w,
      same,
      subst (λ xs. AllGood graph closed [] xs w) (keys-as_roots ids) good,
      subst (AllAgree w) (sym (collect_all-same _ graph children_same fuel ids [])) agree,
    )

answers : (w : Walk) (o : Option (List (NodeId × NodeId))) → AllAgree w o → o ≢ none
unfolding AllAgree
answers w none h e = absurd h
answers w (some es) h e = cc e

pub non_loop_cycle_back_edges-answers : (ir : WorkflowIr) → non_loop_cycle_back_edges ir ≢ none
non_loop_cycle_back_edges-answers ir =
    let found = searched ir in answers found.2 (non_loop_cycle_back_edges ir) found.5

-- The search always answers, and where all edges join nodes it finds no edge exactly if no node can
-- be reached from itself over one or more edges that are not loop edges.
pub non_loop_cycle_back_edges_lem :
    (ir : WorkflowIr)
    → are_known (ids_of ir.nodes) ir.edges ≡ true
    → (non_loop_cycle_back_edges ir ≢ none)
      × ((non_loop_cycle_back_edges ir ≡ some [])
          ↔ ((v : NodeId) → Trail (joined (ends (forward ir.edges))) v v → ⊥))
non_loop_cycle_back_edges_lem ir known =
    let found = searched ir in
    decide ir found.0 found.1 found.2 (non_loop_cycle_back_edges ir) found.3 known found.4 found.5
