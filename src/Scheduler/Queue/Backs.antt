-- ===== src/Scheduler/Queue/Backs.antt =====
-- Which edges `WorkQueue::new` takes for back edges of loops.
use fusion_router.Prelude.{
  ◌≡◌, ◌↔◌, ◌⊎◌, inl, inr, ap, Bool, true, ◌&&◌, ◌||◌, nat_beq, nat_beq_iff, nat_eq, pair_eq,
  text_eq, List, [], ◌∷◌, map, any, Bool-cases, codes, arith,
}
use fusion_router.Prelude.Sets.{contains, insert, contains-insert}
use fusion_router.Prelude.Maps.{Map}
use fusion_router.Scheduler.Graph.{NodeId, ExecutionEdge, ExecutionGraph, is_loop}
use fusion_router.Scheduler.Queue.{
  Pair, edge_pair, ids_of, body_of, structural_backs, all_structural_backs, has_condition,
  marked_backs, new,
}
use fusion_router.Scheduler.Queue.Build.{pairs}
use fusion_router.Scheduler.Queue.Bodies.{Arrives}
use fusion_router.Scheduler.Queue.BodyOf.{Targets, steps, body_of-Arrives}

structural_backs_lem :
    (edges : List ExecutionEdge) (head : NodeId) (body : List NodeId) (backs : List Pair)
    (u h : NodeId)
    → contains (structural_backs edges head body backs) (u, h) ≡ (
        contains backs (u, h)
        || (contains (map edge_pair edges) (u, h)
            && (nat_beq h head && (nat_beq u head || contains body u))))
unfolding structural_backs contains
structural_backs_lem [] head body backs u h = ground arith
structural_backs_lem (e ∷ edges) head body backs u h = ground (
  arith,
  structural_backs_lem edges head body backs u h,
  structural_backs_lem edges head body (insert (edge_pair e) backs) u h,
  contains-insert (edge_pair e) (u, h) backs,
  nat_beq_iff e.source u,
  nat_beq_iff e.target h,
  nat_beq_iff u head,
  nat_beq_iff h head,
)

marked_backs_lem :
    (heads : List NodeId) (edges : List ExecutionEdge) (backs : List Pair) (u h : NodeId)
    → contains (marked_backs heads edges backs) (u, h) ≡ (
        contains backs (u, h)
        || (contains heads h
            && any
                (λ e. nat_beq e.source u && (nat_beq e.target h && has_condition (codes "loop") e))
                edges))
unfolding marked_backs contains
marked_backs_lem heads [] backs u h = ground arith
marked_backs_lem heads (e ∷ edges) backs u h = ground (
  arith,
  marked_backs_lem heads edges backs u h,
  marked_backs_lem heads edges (insert (edge_pair e) backs) u h,
  contains-insert (edge_pair e) (u, h) backs,
  nat_beq_iff e.source u,
  nat_beq_iff e.target h,
)

all_structural_backs_lem :
    (g : ExecutionGraph) (out : Map NodeId Targets) (heads : List NodeId) (backs : List Pair)
    (u h : NodeId)
    → contains (all_structural_backs g out heads backs) (u, h) ≡ (
        contains backs (u, h)
        || (contains (pairs g) (u, h)
            && (contains heads h && (nat_beq u h || contains (body_of g out h) u))))
unfolding all_structural_backs contains
all_structural_backs_lem g out [] backs u h = ground arith
all_structural_backs_lem g out (head ∷ heads) backs u h =
    let now = structural_backs_lem g.edges head (body_of g out head) backs u h in
    let rest =
      all_structural_backs_lem g out heads
        (structural_backs g.edges head (body_of g out head) backs) u h in
    elim (Bool-cases (nat_beq head h)) [
      | inl same ↦
          let e : head ≡ h = (nat_beq_iff head h).0 same in
          let bodies : body_of g out head ≡ body_of g out h = ap (body_of g out) e in
          ground (arith, now, rest, bodies, nat_beq_iff u head)
      | inr other ↦ ground (arith, now, rest, nat_beq_iff h head)
    ]

-- The loop heads, and the edges that are marked as a loop's.
abbrev pub loop_heads : ExecutionGraph → List NodeId
loop_heads g = ids_of (λ n. is_loop n.kind) g.nodes

abbrev pub is_marked : ExecutionGraph → NodeId → NodeId → Bool
is_marked g u h =
    any (λ e. nat_beq e.source u && (nat_beq e.target h && has_condition (codes "loop") e)) g.edges

marked-steps :
    (edges : List ExecutionEdge) (u h : NodeId)
    → any (λ e. nat_beq e.source u && (nat_beq e.target h && has_condition (codes "loop") e)) edges
      ≡ true
    → contains (map edge_pair edges) (u, h) ≡ true
unfolding contains
marked-steps [] u h m = absurd (cc m)
marked-steps (e ∷ edges) u h m = ground (arith, marked-steps edges u h)

back_edges-new :
    (g : ExecutionGraph) (u h : NodeId)
    → contains (new g).back_edges (u, h) ≡ (
        (steps g u h
          && (contains (loop_heads g) h
              && (nat_beq u h || contains (body_of g (new g).outgoing h) u)))
        || (contains (loop_heads g) h && is_marked g u h))
unfolding new contains
back_edges-new g u h = ground (
  arith,
  marked_backs_lem (loop_heads g) g.edges
      (all_structural_backs g (new g).outgoing (loop_heads g) []) u h,
  all_structural_backs_lem g (new g).outgoing (loop_heads g) [] u h,
)

-- An edge of the graph is a back edge exactly if it enters a loop head and it starts at that head, or
-- at a node that the graph's edges lead to from the head, or is marked "loop". Only edges of the graph
-- are back edges.
pub back_edges_lem :
    (g : ExecutionGraph) (u h : NodeId)
    → (contains (new g).back_edges (u, h) ≡ true) ↔ (
        (contains (loop_heads g) h ≡ true)
        × (steps g u h ≡ true)
        × ((u ≡ h) ⊎ (Arrives (steps g) h u ⊎ (is_marked g u h ≡ true))))
back_edges_lem g u h =
    let all = back_edges-new g u h in
    let body = body_of-Arrives g h u in
    let marked = marked-steps g.edges u h in
    (
      λ m. (
        ground arith,
        ground arith,
        elim (Bool-cases (nat_beq u h)) [
          | inl same ↦ inl ((nat_beq_iff u h).0 same)
          | inr other ↦ elim (Bool-cases (is_marked g u h)) [
            | inl yes_marked ↦ inr (inr yes_marked)
            | inr unmarked ↦ inr (inl (body.0 (ground arith)))
          ]
        ],
      ),
      λ (head, step, why). elim why [
        | inl same ↦ ground (arith, nat_beq_iff u h)
        | inr (inl arrives) ↦ ground (arith, body.1 arrives)
        | inr (inr is_one) ↦ ground arith
      ],
    )
