-- ===== src/Compiler/DeadNodes.antt =====
-- `DeadNodeEliminationPass` of crates/fusion-compiler/src/lib.rs. Its hash sets are lists without
-- repetitions. A round of the search takes one id off the queue; an id is queued as an entry point or
-- for one edge whose source is taken for the first time, so as many rounds as there are entry points
-- and edges are enough.
pub mod Search
pub mod Closed
pub mod Entries
pub mod Live
use fusion_router.Prelude.{
  ℕ, zero, suc, ◌+◌, Bool, true, false, not, ◌&&◌, nat_beq, nat_eq, if◌then◌else◌, List, [], ◌∷◌,
  ◌++◌, length, keep, Option, none, some,
}
use fusion_router.Prelude.Sets.{contains, insert}
use fusion_router.Compiler.Ir.{NodeId, IrNode, IrEdge, WorkflowIr, PassResult, ok}

-- The targets, and the sources, of the edges.
unfoldable pub has_incoming : List IrEdge → List NodeId
has_incoming [] = []
has_incoming (e ∷ edges) = insert e.to (has_incoming edges)

unfoldable pub has_outgoing : List IrEdge → List NodeId
has_outgoing [] = []
has_outgoing (e ∷ edges) = insert e.from (has_outgoing edges)

module _ {V : Type 0} where
  abbrev pub is_entry : List IrEdge → IrNode V → Bool
  is_entry edges n = not (contains (has_incoming edges) n.id) && contains (has_outgoing edges) n.id

  unfoldable pub roots : List IrEdge → List (IrNode V) → List NodeId
  roots edges [] = []
  roots edges (n ∷ nodes) =
      let rest = roots edges nodes in if is_entry edges n then insert n.id rest else rest

-- The scan of the edges for one id that was taken.
unfoldable pub push_targets : List NodeId → NodeId → List IrEdge → List NodeId → List NodeId
push_targets reachable current [] queue = queue
push_targets reachable current (e ∷ edges) queue =
    push_targets reachable current edges (
      if nat_beq e.from current && not (contains reachable e.to) then queue ++ e.to ∷ [] else queue)

unfoldable pub search : List IrEdge → ℕ → List NodeId → List NodeId → Option (List NodeId)
search edges fuel reachable [] = some reachable
search edges zero reachable (current ∷ queue) = none
search edges (suc fuel) reachable (current ∷ queue) = elim (contains reachable current) [
  | true ↦ search edges fuel reachable queue
  | false ↦
      search edges fuel (insert current reachable)
        (push_targets (insert current reachable) current edges queue)
]

abbrev pub live_edge : List NodeId → IrEdge → Bool
live_edge reachable e = contains reachable e.from && contains reachable e.to

module _ {V : Type 0} where
  abbrev pub live : List NodeId → WorkflowIr V → WorkflowIr V
  live reachable ir = record ir {
    nodes = keep (λ (n : IrNode V). contains reachable n.id) ir.nodes;
    edges = keep (live_edge reachable) ir.edges;
  }

  -- `none` when the fuel runs out.
  unfoldable pub dead_node_elimination : WorkflowIr V → Option (PassResult (WorkflowIr V))
  dead_node_elimination ir =
      let entries = roots ir.edges ir.nodes in
      if nat_beq (length ir.nodes) 0
      then some (ok ir)
      else if nat_beq (length ir.edges) 0
      then some (ok ir)
      else if nat_beq (length entries) 0
      then some (ok ir)
      else elim (search ir.edges (length entries + length ir.edges) [] entries) [
        | none ↦ none
        | some reachable ↦ some (ok (live reachable ir))
      ]
