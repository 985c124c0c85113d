-- ===== src/Compiler/Passes.antt =====
-- The passes that check or complete single nodes: crates/fusion-compiler/src/lib.rs
-- (ConstraintValidationPass, ModelResolutionPass, BudgetOptimisationPass).
pub mod Admission
use fusion_router.Prelude.{
  ℕ, Bool, true, false, ltb, nat_beq, if◌then◌else◌, map, length, none, some, Text, codes,
}
use fusion_router.Budget.Manager.{ResourceManager}
use fusion_router.Compiler.Ir.{
  IrNodeKind, conditional, loop, split, join, barrier, IrNode, WorkflowIr, PassResult, ok, err,
  at_least_one_node, too_many_nodes, budget_exceeded,
}

abbrev pub max_ir_nodes : ℕ
max_ir_nodes = 10_000

-- The fields of `ModelCatalog` that the pass reads.
pub record ModelCatalog : Type 0 where
  pub fast : Text

abbrev pub is_control_flow : IrNodeKind → Bool
is_control_flow conditional = true
is_control_flow loop = true
is_control_flow split = true
is_control_flow join = true
is_control_flow barrier = true
is_control_flow _ = false

abbrev pub select_model : ModelCatalog → Text
select_model catalog = catalog.fast

module _ {V : Type 0} where
  unfoldable pub constraint_validation : WorkflowIr V → PassResult (WorkflowIr V)
  constraint_validation ir =
      if nat_beq (length ir.nodes) 0
      then err (record {
        pass = codes "constraint_validation";
        node_id = none;
        message = at_least_one_node;
      })
      else if ltb max_ir_nodes (length ir.nodes)
      then err (record {
        pass = codes "constraint_validation";
        node_id = none;
        message = too_many_nodes (length ir.nodes);
      })
      else ok ir

  unfoldable pub resolve_node : ModelCatalog → IrNode V → IrNode V
  resolve_node catalog n =
      if is_control_flow n.kind
      then n
      else elim n.model [ none ↦ record n { model = some (select_model catalog) } | some _ ↦ n ]

  unfoldable pub model_resolution : ModelCatalog → WorkflowIr V → PassResult (WorkflowIr V)
  model_resolution catalog ir = ok (record ir { nodes = map (resolve_node catalog) ir.nodes })

  -- The manager stands behind the trait of its crate.
  unfoldable pub budget_optimisation :
      (m : ResourceManager) → m.State → WorkflowIr V → PassResult (WorkflowIr V)
  budget_optimisation m s ir =
      if m.can_afford s ir.metadata.estimated_cost ir.metadata.estimated_tokens
      then ok ir
      else err
          (record { pass = codes "budget_optimisation"; node_id = none; message = budget_exceeded })
