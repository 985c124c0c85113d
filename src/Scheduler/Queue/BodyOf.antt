-- ===== src/Scheduler/Queue/BodyOf.antt =====
-- The body that `WorkQueue::new` finds for a loop head, in terms of the graph's edges.
use fusion_router.Prelude.{
  suc, ◌≡◌, ◌↔◌, inl, inr, refl, sym, ap, ◌∙◌, Bool, true, ◌&&◌, ◌||◌, nat_beq, nat_beq_iff, nat_eq,
  pair_eq, text_eq, List, [], ◌∷◌, ◌++◌, map, length, All, Bool-cases, Option, Text, arith,
}
use fusion_router.Prelude.Sets.{contains}
use fusion_router.Prelude.Maps.{Map, get, get_or}
use fusion_router.Scheduler.Graph.{NodeId, ExecutionEdge, ExecutionGraph}
use fusion_router.Scheduler.Queue.{edge_pair, touch_all, push_at, index_edges, body_of, new}
use fusion_router.Scheduler.Queue.Build.{
  pairs, get_or-push_at, get_or-touch_all, outgoing_are_edges,
}
use fusion_router.Scheduler.Queue.Pops.{ends}
use fusion_router.Scheduler.Queue.Bodies.{leads, Arrives, Arrives-along, search-Arrives}

abbrev pub Targets : Type 0
Targets = List (NodeId × Option Text)

contains-ends_snoc :
    (ts : Targets) (t : NodeId × Option Text) (w : NodeId)
    → contains (ends (ts ++ t ∷ [])) w ≡ (contains (ends ts) w || nat_beq t.0 w)
unfolding contains
contains-ends_snoc [] t w = ground arith
contains-ends_snoc (s ∷ ts) t w = ground (arith, contains-ends_snoc ts t w)

leads-push_at :
    (source : NodeId) (t : NodeId × Option Text) (m : Map NodeId Targets) (u w : NodeId)
    → leads (push_at source t m) u w ≡ (leads m u w || (nat_beq source u && nat_beq t.0 w))
leads-push_at source t m u w =
    let pushed = get_or-push_at source u t m in
    elim (Bool-cases (nat_beq source u)) [
      | inr there ↦ ground (arith, ap (λ ts. contains (ends ts) w) (rw there at pushed))
      | inl here ↦
          let e : source ≡ u = (nat_beq_iff source u).0 here in
          ground (
            arith,
            ap (λ ts. contains (ends ts) w) (rw here at pushed),
            contains-ends_snoc (get_or source [] m) t w,
            ap (λ k. contains (ends (get_or k [] m)) w) e,
          )
    ]

leads-index_edges :
    (edges : List ExecutionEdge) (m : Map NodeId Targets) (u w : NodeId)
    → leads (index_edges (λ e. e.source) (λ e. (e.target, e.condition)) edges m) u w
      ≡ (leads m u w || contains (map edge_pair edges) (u, w))
unfolding index_edges contains
leads-index_edges [] m u w = ground arith
leads-index_edges (e ∷ edges) m u w = ground (
  arith,
  leads-index_edges edges (push_at e.source (e.target, e.condition) m) u w,
  leads-push_at e.source (e.target, e.condition) m u w,
  nat_beq_iff e.source u,
  nat_beq_iff e.target w,
)

-- The graph's own steps.
abbrev pub steps : ExecutionGraph → NodeId → NodeId → Bool
steps g u w = contains (pairs g) (u, w)

leads-new : (g : ExecutionGraph) (u w : NodeId) → leads (new g).outgoing u w ≡ steps g u w
unfolding new contains get
leads-new g u w =
    leads-index_edges g.edges (touch_all [] g.nodes []) u w
    ∙ ap (λ ts. contains (ends ts) w || steps g u w)
        (get_or-touch_all {V = Targets} u [] g.nodes [])

step-target :
    (edges : List ExecutionEdge) (u w : NodeId)
    → contains (map edge_pair edges) (u, w) ≡ true
    → contains (map (λ e. e.target) edges) w ≡ true
unfolding contains
step-target [] u w h = absurd (cc h)
step-target (e ∷ edges) u w h = ground (arith, step-target edges u w)

length-targets : (edges : List ExecutionEdge) → length (map (λ e. e.target) edges) ≡ length edges
length-targets [] = refl
length-targets (e ∷ edges) = omega (arith, length-targets edges)

All-along :
    (P Q : NodeId × Option Text → Type 0) (ts : Targets)
    → ((t : NodeId × Option Text) → P t → Q t)
    → All P ts
    → All Q ts
All-along P Q [] f h = tt
All-along P Q (t ∷ ts) f h = (f t h.0, All-along P Q ts f h.1)

-- The search from a loop head finds exactly the nodes that the graph's edges lead to from there.
pub body_of-Arrives :
    (g : ExecutionGraph) (h u : NodeId)
    → (contains (body_of g (new g).outgoing h) u ≡ true) ↔ Arrives (steps g) h u
unfolding body_of
body_of-Arrives g h u =
    let known = map (λ (e : ExecutionEdge). e.target) g.edges in
    let found =
      search-Arrives (new g).outgoing h known
        (λ v.
          All-along (λ t. contains (pairs g) (v, t.0) ≡ true) (λ t. contains known t.0 ≡ true)
            (get_or v [] (new g).outgoing) (λ t. step-target g.edges v t.0)
            (outgoing_are_edges g v))
        (suc (length g.edges)) (omega (arith, length-targets g.edges)) u in
    (
      λ m. Arrives-along (leads (new g).outgoing) (steps g) h u (leads-new g) (found.0 m),
      λ a.
          found.1
            (Arrives-along (steps g) (leads (new g).outgoing) h u (λ v w. sym (leads-new g v w)) a),
    )
