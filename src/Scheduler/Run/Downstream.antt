-- ===== src/Scheduler/Run/Downstream.antt =====
-- The edges that the cascade of a failure follows, and how many it can still push: `run_inner` of
-- crates/fusion-scheduler/src/lib.rs.
pub mod Cascades
pub mod Failures
use fusion_router.Prelude.{
  ℕ, zero, suc, ◌+◌, ◌≤◌, ◌<◌, ◌≡◌, ◌⊎◌, refl, sym, subst, ap, ◌∙◌, Bool, true, false, not, ◌&&◌,
  List, [], ◌∷◌, ◌++◌, Option, none, some, arith, nat_beq, nat_beq_iff, nat_eq, pair_eq, ◌==◌, map,
  keep, length, length-append, append-nil, append_assoc, Text, Bool-cases, inl, inr, if◌then◌else◌,
}
use fusion_router.Prelude.Sets.{contains, insert, contains-insert}
use fusion_router.Prelude.Maps.{Map, get, get_or, put, get-put}
use fusion_router.Scheduler.Graph.{NodeId, ExecutionEdge, ExecutionGraph, NodeState, failed}
use fusion_router.Scheduler.Queue.{
  WorkQueue, new, push_at, touch_all, index_edges, edge_pair, mark_failed,
}
use fusion_router.Scheduler.Queue.Build.{pairs, get_or-push_at, get_or-touch_all}
use fusion_router.Scheduler.Queue.Select.{outgoing_edges}
use fusion_router.Scheduler.Run.{Run, targets_where}
use fusion_router.Scheduler.Run.Cascade.{
  Search, push_all, is_waiting, dependency_failed, all_targets, set_failed, expand, visit, cascade,
  fail_node,
}
use fusion_router.Scheduler.Run.Settle.{Fixed}

abbrev pub leaves : NodeId → List ExecutionEdge → List ExecutionEdge
leaves d = keep (λ e. nat_beq e.source d)

-- The queue's outgoing edges of a node are the graph's, in its order.
index-leaves :
    (d : NodeId) (edges : List ExecutionEdge) (m : Map NodeId (List ExecutionEdge))
    → get_or d [] (index_edges (λ e. e.source) (λ e. e) edges m) ≡ get_or d [] m ++ leaves d edges
unfolding index_edges
index-leaves d [] m = sym (append-nil (get_or d [] m))
index-leaves d (e ∷ edges) m =
    let rest = index-leaves d edges (push_at e.source e m) in
    elim (Bool-cases (nat_beq e.source d)) [
      | inl here ↦
          let same : e.source ≡ d = (nat_beq_iff e.source d).0 here in
          let pushed : get_or d [] (push_at e.source e m) ≡ get_or d [] m ++ e ∷ [] =
            rw (get_or-push_at e.source d e m, here) (ap (λ k. get_or k [] m ++ e ∷ []) same) in
          rest
          ∙ (ap (λ xs. xs ++ leaves d edges) pushed
              ∙ rw here (append_assoc (get_or d [] m) (e ∷ []) (leaves d edges)))
      | inr there ↦ rest ∙ rw (get_or-push_at e.source d e m, there) refl
    ]

edge_map-leaves :
    (g : ExecutionGraph) (d : NodeId) → get_or d [] (new g).outgoing_edges_map ≡ leaves d g.edges
unfolding new get
edge_map-leaves g d =
    index-leaves d g.edges (touch_all [] g.nodes [])
    ∙ rw (get_or-touch_all {V = List ExecutionEdge} d [] g.nodes []) refl

keep_all : (edges : List ExecutionEdge) → keep (λ _. true) edges ≡ edges
keep_all [] = refl
keep_all (e ∷ edges) = ap (λ es. e ∷ es) (keep_all edges)

abbrev pub ends : List ExecutionEdge → List NodeId
ends edges = map (λ e. e.target) edges

pub all_targets-leaves :
    {V : Type 0} (g : ExecutionGraph) (r : Run V) (d : NodeId)
    → Fixed g r.queue
    → all_targets r d ≡ ends (leaves d g.edges)
unfolding all_targets targets_where outgoing_edges
all_targets-leaves g r d fixed = ap ends (
    keep_all (get_or d [] r.queue.outgoing_edges_map)
    ∙ (ap (get_or d []) fixed.2 ∙ edge_map-leaves g d))

-- Pushing keeps what is on the stack, adds every target, and is as long as both.
pub push_all-old :
    (targets stack : List NodeId) (v : NodeId)
    → contains stack v ≡ true
    → contains (push_all targets stack) v ≡ true
unfolding push_all contains
push_all-old [] stack v h = h
push_all-old (to ∷ targets) stack v h = push_all-old targets (to ∷ stack) v (ground arith)

pub push_all-new :
    (targets stack : List NodeId) (v : NodeId)
    → contains targets v ≡ true
    → contains (push_all targets stack) v ≡ true
unfolding push_all contains
push_all-new [] stack v h = absurd (cc h)
push_all-new (to ∷ targets) stack v h = elim (Bool-cases (nat_beq to v)) [
  | inl here ↦ push_all-old targets (to ∷ stack) v (ground arith)
  | inr there ↦ push_all-new targets (to ∷ stack) v (ground arith)
]

pub length-push_all :
    (targets stack : List NodeId) → length (push_all targets stack) ≡ length targets + length stack
unfolding push_all
length-push_all [] stack = omega arith
length-push_all (to ∷ targets) stack = omega (arith, length-push_all targets (to ∷ stack))

pub length-ends : (edges : List ExecutionEdge) → length (ends edges) ≡ length edges
length-ends [] = refl
length-ends (e ∷ edges) = ap suc (length-ends edges)

pub edge-ends :
    (edges : List ExecutionEdge) (u v : NodeId)
    → contains (map edge_pair edges) (u, v) ≡ true
    → contains (ends (leaves u edges)) v ≡ true
unfolding contains
edge-ends [] u v h = h
edge-ends (e ∷ edges) u v h = elim (Bool-cases (nat_beq e.source u)) [
  | inl here ↦ rw here (ground (arith, edge-ends edges u v))
  | inr there ↦ rw there (edge-ends edges u v (ground arith))
]

-- The edges that may still be pushed: those of nodes not visited, less those of the failed node.
abbrev pub later : NodeId → List NodeId → ExecutionEdge → Bool
later id visited e = not (contains visited e.source) && not (nat_beq e.source id)

pub later-visit :
    (id d : NodeId) (visited : List NodeId) (edges : List ExecutionEdge)
    → length (keep (later id (insert d visited)) edges) ≤ length (keep (later id visited) edges)
later-visit id d visited [] = omega arith
later-visit id d visited (e ∷ edges) =
    ground (arith, later-visit id d visited edges, contains-insert d e.source visited)

pub later-expand :
    (id d : NodeId) (visited : List NodeId) (edges : List ExecutionEdge)
    → contains visited d ≡ false
    → nat_beq d id ≡ false
    → length (keep (later id (insert d visited)) edges) + length (leaves d edges)
      ≡ length (keep (later id visited) edges)
later-expand id d visited [] fresh other = refl
later-expand id d visited (e ∷ edges) fresh other = elim (Bool-cases (nat_beq e.source d)) [
  | inl here ↦
      let same : d ≡ e.source = sym ((nat_beq_iff e.source d).0 here) in
      let was : contains visited e.source ≡ false =
        subst (λ k. contains visited k ≡ false) same fresh in
      let not_failed : nat_beq e.source id ≡ false = subst (λ k. nat_beq k id ≡ false) same other in
      let now : contains (insert d visited) e.source ≡ true =
        ground (arith, contains-insert d e.source visited, nat_beq_iff d e.source) in
      rw (was, not_failed, now, here) (omega (arith, later-expand id d visited edges fresh other))
  | inr there ↦ ground (
    arith,
    later-expand id d visited edges fresh other,
    contains-insert d e.source visited,
    nat_beq_iff e.source d,
    nat_beq_iff d e.source,
  )
]

pub later-start :
    (id : NodeId) (edges : List ExecutionEdge)
    → length (keep (later id []) edges) + length (leaves id edges) ≡ length edges
unfolding contains
later-start id [] = refl
later-start id (e ∷ edges) = ground (arith, later-start id edges)
