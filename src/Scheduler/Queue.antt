-- ===== src/Scheduler/Queue.antt =====
-- `WorkQueue` of crates/fusion-scheduler/src/work_queue.rs. Hash sets are lists without repetitions
-- and hash maps association lists.
pub mod Build
pub mod Select
pub mod Dispatch
pub mod Steps
pub mod Counts
pub mod Ready
pub mod Duplicates
pub mod Pops
pub mod Bodies
pub mod BodyOf
pub mod Backs
pub mod Frame
use fusion_router.Prelude.{
  ℕ, zero, suc, ◌+◌, ◌-◌, ◌≡◌, max, Bool, true, false, not, ◌&&◌, ◌||◌, List, [], ◌∷◌, ◌++◌, Option,
  none, some, ltb, leb, nat_beq, ◌==◌, if◌then◌else◌, map, length, keep, any, all, find, take, Text,
  codes, text_eq, nat_eq, pair_eq,
}
use fusion_router.Prelude.Sets.{contains, insert, remove}
use fusion_router.Prelude.Maps.{Map, get, put, get_or}
use fusion_router.Scheduler.Graph.{
  NodeId, ExecutionNode, ExecutionEdge, ExecutionGraph, NodeState, is_loop, is_selective,
  is_terminal,
}
unfoldable pub use fusion_router.Prelude.Maps.{push_at, increment, touch}

abbrev pub Pair : Type 0
Pair = NodeId × NodeId

pub record WorkQueue : Type 0 where
  pub graph : ExecutionGraph
  pub completed : List NodeId
  pub in_progress : List NodeId
  pub failed : List NodeId
  pub ready : List NodeId
  pub outgoing : Map NodeId (List (NodeId × Option Text))
  pub incoming : Map NodeId (List NodeId)
  pub outgoing_edges_map : Map NodeId (List ExecutionEdge)
  pub incoming_edges_map : Map NodeId (List ExecutionEdge)
  pub total_incoming : Map NodeId ℕ
  pub satisfied_incoming : Map NodeId ℕ
  pub activated_edges : List Pair
  pub selective_sources : List NodeId
  pub back_edges : List Pair
  pub max_concurrent_nodes : ℕ

abbrev pub edge_pair : ExecutionEdge → Pair
edge_pair e = (e.source, e.target)

-- The sets of loop nodes and of nodes that choose their outgoing edges.
unfoldable pub ids_of : (ExecutionNode → Bool) → List ExecutionNode → List NodeId
ids_of p [] = []
ids_of p (n ∷ nodes) = let rest = ids_of p nodes in if p n then insert n.id rest else rest

unfoldable pub touch_all {ℓ} : {V : Type ℓ} → V → List ExecutionNode → Map NodeId V → Map NodeId V
touch_all v [] m = m
touch_all v (n ∷ nodes) m = touch_all v nodes (touch n.id v m)

unfoldable pub index_edges {ℓ} :
    {V : Type ℓ}
    → (ExecutionEdge → NodeId)
    → (ExecutionEdge → V)
    → List ExecutionEdge
    → Map NodeId (List V)
    → Map NodeId (List V)
index_edges key value [] m = m
index_edges key value (e ∷ edges) m = index_edges key value edges (push_at (key e) (value e) m)

-- One pop of the search for a loop's body: each target not seen before is pushed.
unfoldable pub push_unseen :
    List (NodeId × Option Text) → List NodeId → List NodeId → List NodeId × List NodeId
push_unseen [] seen stack = (seen, stack)
push_unseen ((to, _) ∷ targets) seen stack =
    if contains seen to
    then push_unseen targets seen stack
    else push_unseen targets (insert to seen) (to ∷ stack)

-- The search from a loop head; every node is pushed at most once after the head, so one round more
-- than there are edges is enough.
unfoldable pub reach_from :
    Map NodeId (List (NodeId × Option Text)) → ℕ → List NodeId → List NodeId → List NodeId
reach_from outgoing zero seen stack = seen
reach_from outgoing (suc fuel) seen [] = seen
reach_from outgoing (suc fuel) seen (current ∷ stack) =
    let next = push_unseen (get_or current [] outgoing) seen stack in
    reach_from outgoing fuel next.0 next.1

unfoldable pub body_of :
    ExecutionGraph → Map NodeId (List (NodeId × Option Text)) → NodeId → List NodeId
body_of g outgoing head = reach_from outgoing (suc (length g.edges)) [] (head ∷ [])

-- Edges into one loop head from its own body.
unfoldable pub structural_backs : List ExecutionEdge → NodeId → List NodeId → List Pair → List Pair
structural_backs [] head body backs = backs
structural_backs (e ∷ edges) head body backs = structural_backs edges head body (
    if nat_beq e.target head && (nat_beq e.source head || contains body e.source)
    then insert (edge_pair e) backs
    else backs)

unfoldable pub all_structural_backs :
    ExecutionGraph → Map NodeId (List (NodeId × Option Text)) → List NodeId → List Pair → List Pair
all_structural_backs g outgoing [] backs = backs
all_structural_backs g outgoing (head ∷ heads) backs =
    all_structural_backs g outgoing heads
      (structural_backs g.edges head (body_of g outgoing head) backs)

-- Edges into loop heads that are marked `"loop"`.
abbrev pub has_condition : Text → ExecutionEdge → Bool
has_condition c e = elim e.condition [ none ↦ false | some d ↦ d == c ]

unfoldable pub marked_backs : List NodeId → List ExecutionEdge → List Pair → List Pair
marked_backs heads [] backs = backs
marked_backs heads (e ∷ edges) backs = marked_backs heads edges (
    if contains heads e.target && has_condition (codes "loop") e
    then insert (edge_pair e) backs
    else backs)

unfoldable pub count_incoming : List Pair → List ExecutionEdge → Map NodeId ℕ → Map NodeId ℕ
count_incoming backs [] m = m
count_incoming backs (e ∷ edges) m =
    count_incoming backs edges (if contains backs (edge_pair e) then m else increment e.target m)

unfoldable pub initially_ready : Map NodeId ℕ → List ExecutionNode → List NodeId → List NodeId
initially_ready totals [] ready = ready
initially_ready totals (n ∷ nodes) ready =
    initially_ready totals nodes
      (if nat_beq (get_or n.id 0 totals) 0 then insert n.id ready else ready)

unfoldable pub new : ExecutionGraph → WorkQueue
new g =
    let heads = ids_of (λ n. is_loop n.kind) g.nodes in
    let outgoing =
      index_edges (λ e. e.source) (λ e. (e.target, e.condition)) g.edges
        (touch_all [] g.nodes []) in
    let backs = marked_backs heads g.edges (all_structural_backs g outgoing heads []) in
    let totals = count_incoming backs g.edges (touch_all 0 g.nodes []) in
    record {
      graph = g;
      completed = [];
      in_progress = [];
      failed = [];
      ready = initially_ready totals g.nodes [];
      outgoing = outgoing;
      incoming = index_edges (λ e. e.target) (λ e. e.source) g.edges (touch_all [] g.nodes []);
      outgoing_edges_map = index_edges (λ e. e.source) (λ e. e) g.edges (touch_all [] g.nodes []);
      incoming_edges_map = index_edges (λ e. e.target) (λ e. e) g.edges (touch_all [] g.nodes []);
      total_incoming = totals;
      satisfied_incoming = [];
      activated_edges = [];
      selective_sources = ids_of (λ n. is_selective n.kind) g.nodes;
      back_edges = backs;
      max_concurrent_nodes = 16;
    }

unfoldable pub with_max_concurrent_nodes : WorkQueue → ℕ → WorkQueue
with_max_concurrent_nodes q n = record q { max_concurrent_nodes = max n 1 }

-- What `try_activate_downstream` and `activate_edge` do with an edge that was not activated before.
abbrev pub satisfied_now : WorkQueue → NodeId → ℕ
satisfied_now q to = get_or to 0 q.satisfied_incoming + 1

unfoldable pub activate : WorkQueue → NodeId → NodeId → WorkQueue
activate q from to = record q {
  activated_edges = insert (from, to) q.activated_edges;
  satisfied_incoming = put to (satisfied_now q to) q.satisfied_incoming;
  ready =
      if nat_beq (satisfied_now q to) (get_or to 0 q.total_incoming)
        && (not (contains q.completed to) && not (contains q.failed to))
      then insert to q.ready
      else q.ready;
}

unfoldable pub activate_new : WorkQueue → NodeId → NodeId → WorkQueue
activate_new q from to = if contains q.activated_edges (from, to) then q else activate q from to

unfoldable pub activate_targets : WorkQueue → NodeId → List (NodeId × Option Text) → WorkQueue
activate_targets q from [] = q
activate_targets q from ((to, _) ∷ edges) = activate_targets (activate_new q from to) from edges

unfoldable pub try_activate_downstream : WorkQueue → NodeId → WorkQueue
try_activate_downstream q from =
    if contains q.selective_sources from
    then q
    else activate_targets q from (get_or from [] q.outgoing)

unfoldable pub mark_conditional_completed : WorkQueue → NodeId → WorkQueue
mark_conditional_completed q id = record q {
  completed = insert id q.completed;
  in_progress = remove id q.in_progress;
  ready = remove id q.ready;
}

unfoldable pub mark_completed : WorkQueue → NodeId → WorkQueue
mark_completed q id = try_activate_downstream (mark_conditional_completed q id) id

unfoldable pub activate_edge : WorkQueue → NodeId → NodeId → WorkQueue
activate_edge q from to =
    if contains q.back_edges (from, to)
    then record q { ready = insert to q.ready }
    else activate_new q from to

unfoldable pub mark_failed : WorkQueue → NodeId → WorkQueue
mark_failed q id = record q {
  failed = insert id q.failed;
  in_progress = remove id q.in_progress;
  ready = remove id q.ready;
}

unfoldable pub mark_in_progress : WorkQueue → NodeId → WorkQueue
mark_in_progress q id = record q {
  in_progress = insert id q.in_progress;
  ready = remove id q.ready;
}
