-- ===== src/Workflow/Cycles.antt =====
-- `non_loop_cycle_back_edges` of crates/fusion-ir/src/validate.rs: it goes on where the compiler's
-- search (crates/fusion-compiler/src/lib.rs) stops. Its states 0, 1 and 2 are the colours there.
pub mod Searched
pub mod Decided
use fusion_router.Prelude.{
  ℕ, zero, suc, ◌+◌, ◌*◌, Bool, not, List, [], ◌∷◌, ◌++◌, Option, none, some, nat_eq, if◌then◌else◌,
  length, keep, map, get_elem?,
}
use fusion_router.Prelude.Maps.{put, get_or}
use fusion_router.Compiler.ControlFlow.Cycles.{
  Color, white, grey, black, Colors, color_of, is_white, Adjacency, child,
}
use fusion_router.Workflow.{NodeId, WorkflowNode, WorkflowEdge, WorkflowIr, is_loop}
use fusion_router.Workflow.Structure.{adjacency}

abbrev pub Found : Type 0
Found = Option (List (NodeId × NodeId) × Colors)

abbrev pub found : NodeId × NodeId → Found → Found
found e none = none
found e (some (es, colors)) = some (e ∷ es, colors)

abbrev pub append_found :
    List (NodeId × NodeId) → Option (List (NodeId × NodeId)) → Option (List (NodeId × NodeId))
append_found es none = none
append_found es (some more) = some (es ++ more)

module _ (graph : Adjacency) where
  unfoldable pub collect : ℕ → Colors → List (NodeId × ℕ) → Found
  collect fuel colors [] = some ([], colors)
  collect zero colors (_ ∷ _) = none
  collect (suc fuel) colors ((node, child_idx) ∷ stack) = elim (child graph node child_idx) [
    | none ↦ collect fuel (put node black colors) stack
    | some next ↦ elim (color_of colors next) [
      | white ↦ collect fuel (put next grey colors) ((next, 0) ∷ (node, suc child_idx) ∷ stack)
      | grey ↦ found (node, next) (collect fuel colors ((node, suc child_idx) ∷ stack))
      | black ↦ collect fuel colors ((node, suc child_idx) ∷ stack)
    ]
  ]

  unfoldable pub collect_all : ℕ → List NodeId → Colors → Option (List (NodeId × NodeId))
  collect_all fuel [] colors = some []
  collect_all fuel (id ∷ ids) colors =
      if is_white (color_of colors id)
      then elim (collect fuel (put id grey colors) ((id, 0) ∷ [])) [
        | none ↦ none
        | some (es, after) ↦ append_found es (collect_all fuel ids after)
      ]
      else collect_all fuel ids colors

abbrev pub forward : List WorkflowEdge → List WorkflowEdge
forward edges = keep (λ (e : WorkflowEdge). not (is_loop e.kind)) edges

-- A round follows an edge or finishes a node, which is one of the nodes or an end of an edge.
unfoldable pub non_loop_cycle_back_edges : WorkflowIr → Option (List (NodeId × NodeId))
non_loop_cycle_back_edges ir =
    collect_all (adjacency (forward ir.edges) []) (length ir.nodes + 3 * length ir.edges)
      (map (λ (n : WorkflowNode). n.id) ir.nodes) []
