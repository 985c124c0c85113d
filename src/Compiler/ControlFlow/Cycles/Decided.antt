-- ===== src/Compiler/ControlFlow/Cycles/Decided.antt =====
-- What `detect_illegal_cycles` and `three_color_cycle_detect` (crates/fusion-compiler/src/lib.rs)
-- decide.
use fusion_router.Prelude.{
  ◌*◌, ◌≡◌, ◌≢◌, ◌↔◌, refl, sym, subst, ◌∙◌, Bool, true, List, [], Option, none, some, arith,
  nat_eq, pair_eq, length, map, keep, inr,
}
use fusion_router.Prelude.Sets.{contains}
use fusion_router.Prelude.Counting.{distinct}
use fusion_router.Prelude.Maps.{get}
use fusion_router.Compiler.Ir.{NodeId, IrEdge}
use fusion_router.Compiler.ControlFlow.Cycles.{
  Adjacency, adjacency, Walk, finished, cycle_at, out_of_fuel, walk_all, three_color_cycle_detect,
  is_forward, detect_illegal_cycles,
}
use fusion_router.Compiler.ControlFlow.Cycles.Acyclic.{Good, AllGood, walk_all-Good}
use fusion_router.Compiler.ControlFlow.Cycles.Adjacent.{
  adjacency-leads, IsClosed, adjacency-IsClosed, keys, leads-keys, keys-IsKey,
}
use fusion_router.Compiler.ControlFlow.Cycles.Fuel.{adjacency-pops}
use fusion_router.Compiler.ControlFlow.Cycles.Trails.{Trail, one, more, leads, Finished-acyclic}
use fusion_router.Compiler.ControlFlow.Cycles.Walks.{Walked}

pub Trail-map :
    (p q : NodeId → NodeId → Bool) (u v : NodeId)
    → ((x y : NodeId) → p x y ≡ true → q x y ≡ true)
    → Trail p u v
    → Trail q u v
Trail-map p q u v f (one e) = one (f u v e)
Trail-map p q u v f (more {v = x} e t) = more (f u x e) (Trail-map p q x v f t)

pub Trail-first :
    (p : NodeId → NodeId → Bool) (u v : NodeId) → Trail p u v → (x : NodeId) × (p u x ≡ true)
Trail-first p u v (one e) = (v, e)
Trail-first p u v (more {v = x} e t) = (x, e)

abbrev answer_of : Walk → Option (Option NodeId)
answer_of (finished _) = some none
answer_of (cycle_at node) = some (some node)
answer_of out_of_fuel = none

-- The three answers of a search.
abbrev pub Decides : (NodeId → NodeId → Bool) → Option (Option NodeId) → Type 0
Decides p answer =
    (answer ≢ none)
    × ((answer ≡ some none) ↔ ((v : NodeId) → Trail p v v → ⊥))
    × ((node : NodeId) → answer ≡ some (some node) → Trail p node node)

abbrev pub joined : List (NodeId × NodeId) → NodeId → NodeId → Bool
joined edges u v = contains edges (u, v)

pub graph-joined :
    (edges : List (NodeId × NodeId)) (u v : NodeId)
    → leads (adjacency edges []) u v ≡ joined edges u v
unfolding contains get
graph-joined edges u v = ground (arith, adjacency-leads edges [] u v)

answer-Decides :
    (edges : List (NodeId × NodeId)) (w : Walk) (closed : IsClosed (adjacency edges []))
    → AllGood (adjacency edges []) closed [] (keys (adjacency edges [])) w
    → Decides (joined edges) (answer_of w)
unfolding Good AllGood
answer-Decides edges (finished after) closed h =
    let graph = adjacency edges [] in
    (
      λ e. cc e,
      (
        λ _ v t.
            let cycle =
              Trail-map (joined edges) (leads graph) v v (λ x y e. graph-joined edges x y ∙ e) t in
            let (x, edge) = Trail-first (leads graph) v v cycle in
            Finished-acyclic graph h.0 v h.1.finished_in_order
              (h.2 v (inr (leads-keys graph v x edge))) cycle,
        λ _. refl,
      ),
      λ node e. absurd (cc e),
    )
answer-Decides edges (cycle_at node) closed h =
    let cycle =
      Trail-map (leads (adjacency edges [])) (joined edges) node node
        (λ x y e. sym (graph-joined edges x y) ∙ e) h in
    (
      λ e. cc e,
      (λ e. absurd (cc e), λ acyclic. absurd (acyclic node cycle)),
      λ n e. subst (λ k. Trail (joined edges) k k) (ground arith) cycle,
    )
answer-Decides edges out_of_fuel closed h = absurd h

pub nothing-Walked : (graph : Adjacency) → Walked graph [] [] []
unfolding contains get distinct
nothing-Walked graph = record {
  finished_in_order = tt;
  blacks = λ v b. absurd (cc b);
  ordered = λ v m. absurd (cc m);
  greys = λ v g. absurd (cc g);
  stacked = λ v m. absurd (cc m);
  once = refl;
  chain = tt;
}

pub empty-IsClosed : IsClosed []
unfolding contains get
empty-IsClosed u v e = absurd (cc e)

three_color_cycle_detect-Decides :
    (edges : List (NodeId × NodeId)) → Decides (joined edges) (three_color_cycle_detect edges)
unfolding three_color_cycle_detect
three_color_cycle_detect-Decides edges =
    let graph = adjacency edges [] in
    let closed = adjacency-IsClosed edges [] empty-IsClosed in
    let fuel = 3 * length edges in
    answer-Decides edges (walk_all graph fuel graph []) closed (
      walk_all-Good graph closed fuel graph [] [] (nothing-Walked graph) (keys-IsKey graph)
        (omega (arith, adjacency-pops edges [])))

-- Two nodes that an edge joins that is not marked "loop".
abbrev pub joined_forward : List IrEdge → NodeId → NodeId → Bool
joined_forward edges = joined (map (λ (e : IrEdge). (e.from, e.to)) (keep is_forward edges))

-- The search of a workflow for cycles always answers. It answers Ok exactly if no node can be reached
-- from itself over one or more edges that are not marked "loop", and the node that it answers with
-- otherwise can.
pub detect_illegal_cycles_lem :
    (edges : List IrEdge)
    → (detect_illegal_cycles edges ≢ none)
      × ((detect_illegal_cycles edges ≡ some none)
          ↔ ((v : NodeId) → Trail (joined_forward edges) v v → ⊥))
      × ((node : NodeId)
          → detect_illegal_cycles edges ≡ some (some node)
          → Trail (joined_forward edges) node node)
unfolding detect_illegal_cycles
detect_illegal_cycles_lem edges =
    three_color_cycle_detect-Decides (map (λ (e : IrEdge). (e.from, e.to)) (keep is_forward edges))
