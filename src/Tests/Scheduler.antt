-- ===== src/Tests/Scheduler.antt =====
-- The work queue: the theorems at small graphs.
use fusion_router.Prelude.{ℕ, ◌≡◌, refl, true, false, [], ◌∷◌, none, nat_eq, pair_eq, some, codes}
use fusion_router.Prelude.Sets.{contains, insert, remove}
use fusion_router.Prelude.Maps.{get, put}
use fusion_router.Prelude.Counting.{erase}
use fusion_router.Scheduler.Graph.{NodeId, ExecutionNode, ExecutionGraph, llm_generate, loop}
use fusion_router.Scheduler.Queue.{
  WorkQueue, new, mark_completed, try_activate_downstream, mark_conditional_completed, ids_of,
  activate_targets, index_edges, push_at, touch_all, touch, activate_new, activate, count_incoming,
  marked_backs, all_structural_backs, increment, initially_ready,
}
use fusion_router.Scheduler.Queue.Build.{pairs}
use fusion_router.Scheduler.Queue.Bodies.{Arrives}
use fusion_router.Scheduler.Queue.BodyOf.{steps}
use fusion_router.Scheduler.Queue.Backs.{loop_heads, is_marked, back_edges_lem}
use fusion_router.Prelude.{◌↔◌, ◌⊎◌}
use fusion_router.Scheduler.Queue.Steps.{start, next, completes}
use fusion_router.Scheduler.Queue.Ready.{dependency_safety}
use fusion_router.Scheduler.Queue.Duplicates.{parallel_edges_starve}

abbrev node : ℕ → ExecutionNode
node n = record { id = n; kind = llm_generate; model = []; max_iterations = none }

-- 1 and 2 lead to 3.
abbrev joined : ExecutionGraph
joined = record {
  nodes = node 1 ∷ node 2 ∷ node 3 ∷ [];
  edges =
      record { source = 1; target = 3; condition = none }
      ∷ record { source = 2; target = 3; condition = none }
      ∷ [];
}

abbrev both_done : WorkQueue
both_done = mark_completed (mark_completed (new joined) 1) 2

no_loops : (u : NodeId) → contains (new joined).back_edges (u, 3) ≡ false
unfolding new contains marked_backs ids_of all_structural_backs
no_loops u = refl

three_ready : contains both_done.ready 3 ≡ true
unfolding new contains insert remove get put mark_completed try_activate_downstream
    mark_conditional_completed ids_of activate_targets index_edges push_at touch_all touch
    activate_new activate count_incoming marked_backs all_structural_backs increment initially_ready
three_ready = refl

one_to_three : contains (pairs joined) (1, 3) ≡ true
unfolding contains
one_to_three = refl

dependency_safety_example :
    (contains both_done.activated_edges (1, 3) ≡ true) × (contains both_done.completed 1 ≡ true)
dependency_safety_example =
    dependency_safety joined 3 no_loops both_done 1
      (next (next start (completes (new joined) 1)) (completes (mark_completed (new joined) 1) 2))
      three_ready one_to_three

-- Two edges lead from 1 to 3.
abbrev doubled : ExecutionGraph
doubled = record {
  nodes = node 1 ∷ node 3 ∷ [];
  edges =
      record { source = 1; target = 3; condition = some (codes "a") }
      ∷ record { source = 1; target = 3; condition = some (codes "b") }
      ∷ [];
}

no_loops_doubled : (u : NodeId) → contains (new doubled).back_edges (u, 3) ≡ false
unfolding new contains marked_backs ids_of all_structural_backs
no_loops_doubled u = refl

first_edge : contains (pairs doubled) (1, 3) ≡ true
unfolding contains
first_edge = refl

second_edge : contains (erase (1, 3) (pairs doubled)) (1, 3) ≡ true
unfolding contains erase
second_edge = refl

parallel_edges_starve_example : contains (mark_completed (new doubled) 1).ready 3 ≡ false
parallel_edges_starve_example =
    parallel_edges_starve doubled 3 1 (mark_completed (new doubled) 1) no_loops_doubled first_edge
      second_edge (next start (completes (new doubled) 1))

-- The loop head 1 leads over 2 back to itself.
abbrev looping : ExecutionGraph
looping = record {
  nodes = record { id = 1; kind = loop; model = []; max_iterations = none } ∷ node 2 ∷ [];
  edges =
      record { source = 1; target = 2; condition = none }
      ∷ record { source = 2; target = 1; condition = none }
      ∷ [];
}

abbrev head : NodeId
head = 1

abbrev tail : NodeId
tail = 2

back_edges_lem_example : (contains (new looping).back_edges (tail, head) ≡ true) ↔ (
    (contains (loop_heads looping) head ≡ true)
    × (steps looping tail head ≡ true)
    × ((tail ≡ head) ⊎ (Arrives (steps looping) head tail ⊎ (is_marked looping tail head ≡ true))))
back_edges_lem_example = back_edges_lem looping tail head
