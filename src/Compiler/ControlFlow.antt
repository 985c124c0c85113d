-- ===== src/Compiler/ControlFlow.antt =====
-- `ControlFlowValidationPass` of crates/fusion-compiler/src/lib.rs: the checks of edges and of nodes.
pub mod Cycles
pub mod Checked
use fusion_router.Prelude.{
  ℕ, Bool, true, false, not, ◌&&◌, ◌||◌, nat_beq, ltb, nat_eq, text_eq, ◌==◌, if◌then◌else◌, List,
  [], ◌∷◌, map, length, keep, any, Option, none, some, Text, codes,
}
use fusion_router.Prelude.Sets.{contains, insert}
use fusion_router.Prelude.Maps.{Map, get}
use fusion_router.Compiler.Ir.{
  NodeId, conditional, loop, split, join, barrier, IrNode, IrEdge, WorkflowIr, CompilerError,
  Message, PassResult, ok, err, unknown_source, unknown_target, conditional_without_edge,
  conditional_without_condition, loop_without_edge, loop_without_max_iterations, split_needs_two,
  join_needs_two, barrier_without_incoming, barrier_without_outgoing, illegal_cycle,
}
use fusion_router.Compiler.ControlFlow.Cycles.{detect_illegal_cycles}

abbrev pub refusal : Option NodeId → Message → CompilerError
refusal node message = record {
  pass = codes "control_flow_validation";
  node_id = node;
  message = message;
}

abbrev pub is_some {ℓ} : {A : Type ℓ} → Option A → Bool
is_some none = false
is_some (some _) = true

abbrev pub outgoing : List IrEdge → NodeId → List IrEdge
outgoing edges id = keep (λ (e : IrEdge). nat_beq e.from id) edges

abbrev pub incoming : List IrEdge → NodeId → List IrEdge
incoming edges id = keep (λ (e : IrEdge). nat_beq e.to id) edges

-- A loop of checks that returns at the first error.
unfoldable pub first_error :
    {A : Type 0} → (A → Option CompilerError) → List A → Option CompilerError
first_error check [] = none
first_error check (x ∷ xs) =
    let rest = first_error check xs in elim (check x) [ none ↦ rest | some e ↦ some e ]

unfoldable pub check_edge : List NodeId → IrEdge → Option CompilerError
check_edge ids e =
    if not (contains ids e.from)
    then some (refusal none (unknown_source e.from))
    else if not (contains ids e.to)
    then some (refusal none (unknown_target e.to))
    else none

module _ {V : Type 0} where
  unfoldable pub node_ids : List (IrNode V) → List NodeId
  node_ids [] = []
  node_ids (n ∷ nodes) = insert n.id (node_ids nodes)

  unfoldable pub check_node : List IrEdge → IrNode V → Option CompilerError
  check_node edges n =
      let leaving = outgoing edges n.id in
      let entering = incoming edges n.id in
      elim n.kind [
        | conditional ↦
            if nat_beq (length leaving) 0
            then some (refusal (some n.id) conditional_without_edge)
            else if not (any (λ (e : IrEdge). is_some e.condition) leaving)
            then some (refusal (some n.id) conditional_without_condition)
            else none
        | loop ↦
            if nat_beq (length leaving) 0
            then some (refusal (some n.id) loop_without_edge)
            else if not (is_some (get (codes "max_iterations") n.config))
            then some (refusal (some n.id) loop_without_max_iterations)
            else none
        | split ↦
            if ltb (length leaving) 2
            then some (refusal (some n.id) (split_needs_two (length leaving)))
            else none
        | join ↦
            if ltb (length entering) 2
            then some (refusal (some n.id) (join_needs_two (length entering)))
            else none
        | barrier ↦
            if nat_beq (length entering) 0
            then some (refusal (some n.id) barrier_without_incoming)
            else if nat_beq (length leaving) 0
            then some (refusal (some n.id) barrier_without_outgoing)
            else none
        | _ ↦ none
      ]

  -- `none` when the search for a cycle runs out of fuel.
  unfoldable pub control_flow_validation : WorkflowIr V → Option (PassResult (WorkflowIr V))
  control_flow_validation ir = elim (first_error (check_edge (node_ids ir.nodes)) ir.edges) [
    | some e ↦ some (err e)
    | none ↦ elim (first_error (check_node ir.edges) ir.nodes) [
      | some e ↦ some (err e)
      | none ↦ elim (detect_illegal_cycles ir.edges) [
        | none ↦ none
        | some none ↦ some (ok ir)
        | some (some node) ↦ some (err (refusal (some node) illegal_cycle))
      ]
    ]
  ]
