-- ===== src/Scheduler/Queue/Steps.antt =====
-- How the scheduler's loop (crates/fusion-scheduler/src/lib.rs) drives the queue before it resets any
-- loop.
use fusion_router.Prelude.{ℕ, ◌≡◌, true, nat_eq, pair_eq}
use fusion_router.Prelude.Sets.{contains}
use fusion_router.Scheduler.Graph.{NodeId, ExecutionGraph}
use fusion_router.Scheduler.Queue.{
  WorkQueue, new, mark_conditional_completed, mark_completed, activate_edge, mark_failed,
  mark_in_progress, with_max_concurrent_nodes,
}
use fusion_router.Scheduler.Queue.Build.{pairs}

-- The calls of `run_inner` on its queue, less those that reset a loop. It sets the limit at first, and activates an edge of the
-- graph by hand only after the edge's source was marked completed.
pub data Step (g : ExecutionGraph) : WorkQueue → WorkQueue → Type 0 where
  configures : (q : WorkQueue) (n : ℕ) → Step g q (with_max_concurrent_nodes q n)
  starts : (q : WorkQueue) (id : NodeId) → Step g q (mark_in_progress q id)
  completes : (q : WorkQueue) (id : NodeId) → Step g q (mark_completed q id)
  decides : (q : WorkQueue) (id : NodeId) → Step g q (mark_conditional_completed q id)
  fails : (q : WorkQueue) (id : NodeId) → Step g q (mark_failed q id)
  activates :
      (q : WorkQueue) (from to : NodeId)
      → contains q.completed from ≡ true
      → contains (pairs g) (from, to) ≡ true
      → Step g q (activate_edge q from to)

pub data Reach (g : ExecutionGraph) : WorkQueue → Type 0 where
  start : Reach g (new g)
  next : {q r : WorkQueue} → Reach g q → Step g q r → Reach g r
