-- ===== src/Scheduler/Run/Cascade.antt =====
-- The failure of a node fails everything behind it that has not run: the search of `run_inner` in
-- crates/fusion-scheduler/src/lib.rs. A Vec used as a stack is a list with its top first.
use fusion_router.Prelude.{
  ℕ, zero, suc, Bool, true, false, List, [], ◌∷◌, Option, none, some, nat_eq, if◌then◌else◌, Text,
  codes, length,
}
use fusion_router.Prelude.Sets.{contains, insert}
use fusion_router.Prelude.Maps.{get, put}
use fusion_router.Scheduler.Graph.{NodeId, NodeState, pending, failed}
use fusion_router.Scheduler.Queue.{mark_failed}
use fusion_router.Scheduler.Run.{Run, targets_where}

-- `stack.extend(targets)`
unfoldable pub push_all : List NodeId → List NodeId → List NodeId
push_all [] stack = stack
push_all (to ∷ targets) stack = push_all targets (to ∷ stack)

-- `Some(NodeState::Pending) | None`
unfoldable pub is_waiting : Option NodeState → Bool
is_waiting none = true
is_waiting (some pending) = true
is_waiting (some _) = false

abbrev pub dependency_failed : NodeState
dependency_failed = failed (codes "dependency failed")

abbrev pub Search : Type 0 → Type 0
Search V = List NodeId × List NodeId × Run V

module _ {V : Type 0} where
  unfoldable pub all_targets : Run V → NodeId → List NodeId
  all_targets r id = targets_where (λ _. true) r.queue id

  unfoldable pub set_failed : NodeId → NodeState → Run V → Run V
  set_failed id state r = record r {
    node_states = put id state r.node_states;
    queue = mark_failed r.queue id;
  }

  -- A search that is under way: the set of visited nodes, the stack and the run.
  unfoldable pub expand : NodeId → List NodeId → List NodeId → Run V → Search V
  expand downstream visited stack r =
      let failed_run = set_failed downstream dependency_failed r in
      (insert downstream visited, push_all (all_targets failed_run downstream) stack, failed_run)

  -- One pop.
  unfoldable pub visit : NodeId → Search V → Search V
  visit downstream (visited, stack, r) =
      if contains visited downstream
      then (visited, stack, r)
      else if is_waiting (get downstream r.node_states)
      then expand downstream visited stack r
      else (insert downstream visited, stack, r)

  unfoldable pub cascade : ℕ → Search V → Run V
  cascade zero (visited, stack, r) = r
  cascade (suc fuel) (visited, [], r) = r
  cascade (suc fuel) (visited, downstream ∷ stack, r) =
      cascade fuel (visit downstream (visited, stack, r))

  -- Every node's edges are pushed at most once, besides those of the node that failed.
  unfoldable pub fail_node : NodeId → Text → Run V → Run V
  fail_node id message r =
      let failed_run = set_failed id (failed message) r in
      cascade (suc (length r.queue.graph.edges))
        ([], push_all (all_targets failed_run id) [], failed_run)
