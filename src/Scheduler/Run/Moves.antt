-- ===== src/Scheduler/Run/Moves.antt =====
-- What `run_inner` (crates/fusion-scheduler/src/lib.rs) does to its variables after a batch has
-- answered, as a step relation.
use fusion_router.Prelude.{◌≡◌, true, List, [], ◌∷◌, Option, none, some, ℕ, nat_eq, pair_eq}
use fusion_router.Prelude.Sets.{contains}
use fusion_router.Prelude.Maps.{Map}
use fusion_router.Budget.Envelope.{Envelope, increment_iteration}
use fusion_router.Scheduler.Graph.{NodeId, ExecutionGraph, NodeState}
use fusion_router.Scheduler.Queue.{
  WorkQueue, mark_completed, mark_conditional_completed, mark_failed, activate_edge,
}
use fusion_router.Scheduler.Queue.Select.{reset_body_node, reset_ready}
use fusion_router.Scheduler.Queue.Build.{pairs}
use fusion_router.Scheduler.Queue.Backs.{loop_heads}
use fusion_router.Scheduler.Run.{Run, Usage, Call}
use fusion_router.Scheduler.Run.Handle.{account}

-- The call that takes a node out of the nodes in progress.
pub data Ends (id : NodeId) : WorkQueue → WorkQueue → Type 0 where
  completes : (q : WorkQueue) → Ends id q (mark_completed q id)
  decides : (q : WorkQueue) → Ends id q (mark_conditional_completed q id)
  fails : (q : WorkQueue) → Ends id q (mark_failed q id)

-- Only a graph that has a loop resets nodes.
pub data Move {V : Type 0} (g : ExecutionGraph) : Run V → Run V → Type 0 where
  writes :
      (r : Run V) (states : Map NodeId NodeState) (iterations : Map NodeId ℕ)
      → Move g r (record r { node_states = states; loop_iterations = iterations })
  counts :
      (r : Run V) (e : Envelope)
      → r.envelope ≡ some e
      → Move g r (record r { envelope = some (increment_iteration e).0 })
  cascades : (r : Run V) (id : NodeId) → Move g r (record r { queue = mark_failed r.queue id })
  activates :
      (r : Run V) (from to : NodeId)
      → contains r.queue.completed from ≡ true
      → contains (pairs g) (from, to) ≡ true
      → Move g r (record r { queue = activate_edge r.queue from to })
  resets :
      (r : Run V) (head id : NodeId)
      → contains (loop_heads g) head ≡ true
      → Move g r (record r { queue = reset_body_node r.queue id })
  rearms :
      (r : Run V) (head id : NodeId)
      → contains (loop_heads g) head ≡ true
      → Move g r (record r { queue = reset_ready r.queue id })
  loops_to :
      (r : Run V) (head from to : NodeId)
      → contains (loop_heads g) head ≡ true
      → Move g r (record r { queue = activate_edge r.queue from to })

pub data Moves {V : Type 0} (g : ExecutionGraph) : Run V → Run V → Type 0 where
  done : (r : Run V) → Moves g r r
  step : {r m n : Run V} → Move g r m → Moves g m n → Moves g r n

pub Moves-trans :
    {V : Type 0} (g : ExecutionGraph) (r m n : Run V) → Moves g r m → Moves g m n → Moves g r n
Moves-trans g r m n (done _) rest = rest
Moves-trans g r m n (step first more) rest = step first (Moves-trans g _ m n more rest)

-- A result within the budget: its node ends, and moves follow.
pub record Finishes {V : Type 0} (g : ExecutionGraph) (id : NodeId) (r after : Run V) : Type 0 where
  pub between : Run V
  pub ends : Ends id r.queue between.queue
  pub same_cost : between.total_cost ≡ r.total_cost
  pub same_envelope : between.envelope ≡ r.envelope
  pub moves : Moves g between after

-- The results of the nodes of a batch, each charged and then handled.
pub data Passage {V : Type 0} (c : Call V) : List NodeId → Run V → Run V → Type 0 where
  all_passed : (r : Run V) → Passage c [] r r
  passed :
      {r m n : Run V} {ids : List NodeId} (id : NodeId) (usage : Option Usage)
      → (account c id usage r).1 ≡ none
      → Finishes c.graph id (account c id usage r).0 m
      → Passage c ids m n
      → Passage c (id ∷ ids) r n
