-- ===== src/Compiler/Passes/Admission.antt =====
-- The budget pass and the reservation that the executor makes later, on one manager.
use fusion_router.Prelude.{◌≡◌, ◌↔◌, true, arith}
use fusion_router.Budget.Manager.{Meter, can_afford}
use fusion_router.Budget.Manager.Default
use fusion_router.Compiler.Ir.{WorkflowIr, ok}
use fusion_router.Compiler.Passes.{budget_optimisation}

-- The budget pass accepts a workflow exactly when a reservation of its estimates, made in the same
-- state of the default manager, would succeed.
pub budget_optimisation-try_apply :
    {V : Type 0} (m : Meter) (ir : WorkflowIr V)
    → (budget_optimisation Default.manager m ir ≡ ok ir) ↔ (
        (Default.try_apply m ir.metadata.estimated_cost.nanos ir.metadata.estimated_tokens).1
        ≡ true)
unfolding budget_optimisation Default.try_apply can_afford
budget_optimisation-try_apply m ir = (λ h. ground arith, λ h. ground arith)
