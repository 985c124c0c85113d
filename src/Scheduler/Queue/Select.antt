-- ===== src/Scheduler/Queue/Select.antt =====
-- Reading the queue, choosing what to dispatch, and re-arming loops:
-- crates/fusion-scheduler/src/work_queue.rs.
use fusion_router.Prelude.{
  ℕ, ◌-◌, Bool, not, ◌&&◌, ◌||◌, List, [], ◌∷◌, Option, none, some, ltb, leb, nat_beq, nat_eq,
  pair_eq, if◌then◌else◌, length, keep, any, all, find, take, Text,
}
use fusion_router.Prelude.Sets.{contains, insert, remove}
use fusion_router.Prelude.Maps.{Map, get, put, get_or}
use fusion_router.Scheduler.Graph.{NodeId, ExecutionNode, ExecutionEdge, NodeState, is_terminal}
use fusion_router.Scheduler.Queue.{WorkQueue}

-- `sort_by_key(|n| n.id)` is stable.
unfoldable pub insert_by_id : ExecutionNode → List ExecutionNode → List ExecutionNode
insert_by_id n [] = n ∷ []
insert_by_id n (m ∷ nodes) =
    let rest = insert_by_id n nodes in if leb n.id m.id then n ∷ m ∷ nodes else m ∷ rest

unfoldable pub sort_by_id : List ExecutionNode → List ExecutionNode
sort_by_id [] = []
sort_by_id (n ∷ nodes) = insert_by_id n (sort_by_id nodes)

unfoldable pub dispatchable : WorkQueue → Map NodeId NodeState → ExecutionNode → Bool
dispatchable q states n =
    contains q.ready n.id
    && (not (contains q.completed n.id)
        && (not (contains q.in_progress n.id)
            && (not (contains q.failed n.id) && not (is_terminal (get n.id states)))))

abbrev pub available : WorkQueue → ℕ
available q = q.max_concurrent_nodes - length q.in_progress

unfoldable pub get_ready : WorkQueue → Map NodeId NodeState → List ExecutionNode
get_ready q states =
    let result = keep (dispatchable q states) q.graph.nodes in
    if ltb (available q) (length result) then take (available q) (sort_by_id result) else result

unfoldable pub is_done : WorkQueue → Map NodeId NodeState → Bool
is_done q states =
    all
      (λ n. contains q.completed n.id || (contains q.failed n.id || is_terminal (get n.id states)))
      q.graph.nodes

unfoldable pub any_in_progress : WorkQueue → Bool
any_in_progress q = ltb 0 (length q.in_progress)

unfoldable pub outgoing_edges : WorkQueue → NodeId → List ExecutionEdge
outgoing_edges q id = get_or id [] q.outgoing_edges_map

unfoldable pub incoming_edges : WorkQueue → NodeId → List ExecutionEdge
incoming_edges q id = get_or id [] q.incoming_edges_map

abbrev pub loops_back : WorkQueue → NodeId → NodeId × Option Text → Bool
loops_back q id edge = contains q.back_edges (id, edge.0)

unfoldable pub has_loop_back_edge : WorkQueue → NodeId → Bool
has_loop_back_edge q id = any (loops_back q id) (get_or id [] q.outgoing)

unfoldable pub loop_back_target : WorkQueue → NodeId → Option NodeId
loop_back_target q id = elim (find (loops_back q id) (get_or id [] q.outgoing)) [
  | none ↦ none
  | some edge ↦ some edge.0
]

-- Re-arming one node of a loop's body: it counts the sources that are still completed.
abbrev pub still_satisfied : WorkQueue → List NodeId → NodeId → ℕ
still_satisfied q completed id = length (
    keep (λ from. contains completed from && contains q.activated_edges (from, id))
      (get_or id [] q.incoming))

unfoldable pub reset_body_node : WorkQueue → NodeId → WorkQueue
reset_body_node q id =
    let completed = remove id q.completed in
    let satisfied = still_satisfied q completed id in
    let total = get_or id 0 q.total_incoming in
    let ready = remove id q.ready in
    record q {
      completed = completed;
      in_progress = remove id q.in_progress;
      failed = remove id q.failed;
      satisfied_incoming = put id satisfied q.satisfied_incoming;
      ready = if nat_beq satisfied total && ltb 0 satisfied then insert id ready else ready;
    }

unfoldable pub reset_loop_body : WorkQueue → List NodeId → WorkQueue
reset_loop_body q [] = q
reset_loop_body q (id ∷ ids) = reset_loop_body (reset_body_node q id) ids

unfoldable pub reset_ready : WorkQueue → NodeId → WorkQueue
reset_ready q id = record q {
  completed = remove id q.completed;
  in_progress = remove id q.in_progress;
  failed = remove id q.failed;
  ready = insert id q.ready;
}
