-- ===== src/Tests/Compiler.antt =====
-- The compiler's passes: the theorems at small graphs. JSON values are texts here, the Debug format is
-- the text itself and a gate's id is its node's plus 100.
use fusion_router.Compiler.ControlFlow.Cycles.Decided.{joined_forward, detect_illegal_cycles_lem}
use fusion_router.Compiler.ControlFlow.Cycles.Trails.{Trail}
use fusion_router.Prelude.{
  ℕ, ◌+◌, ◌≡◌, ◌≢◌, ◌↔◌, ◌⊎◌, refl, true, false, List, [], ◌∷◌, ◌++◌, any, All, Option, none, some,
  Text, codes, text_eq, text_beq, nat_eq, pair_eq,
}
use fusion_router.Prelude.Sets.{contains, insert}
use fusion_router.Prelude.Maps.{get, put, push_at, touch}
use fusion_router.Compiler.Ir.{
  NodeId, IrNodeKind, generate, join, split, single, IrNode, IrEdge, WorkflowIr, CompilerError,
  PassResult, ok, err,
}
use fusion_router.Compiler.DeadNodes.{dead_node_elimination}
use fusion_router.Budget.Manager.{Meter}
use fusion_router.Budget.Manager.Default
use fusion_router.Compiler.Passes.{budget_optimisation}
use fusion_router.Compiler.Passes.Admission.{budget_optimisation-try_apply}
use fusion_router.Compiler.DeadNodes.Entries.{Among, IsEntry}
use fusion_router.Compiler.DeadNodes.Live.{Trimmed, dead_node_elimination_lem}
use fusion_router.Compiler.ControlFlow.{
  control_flow_validation, first_error, check_edge, check_node, node_ids,
}
use fusion_router.Compiler.ControlFlow.Cycles.{
  detect_illegal_cycles, three_color_cycle_detect, walk, walk_all, adjacency,
}
use fusion_router.Compiler.ControlFlow.Checked.{Known, Shaped, control_flow_validation_lem}
use fusion_router.Compiler.Policy.Pattern.{star, strip_star, pattern_matches, pattern_matches_lem}
use fusion_router.Compiler.Policy.{
  PolicyRule, PolicyFacts, approval, evaluate_matching_rule, policy,
}
use fusion_router.Compiler.Policy.Placed.{Placed}
use fusion_router.Compiler.Policy.Matching.{Matches}
use fusion_router.Compiler.Policy.Precedence.{Beats, evaluate_matching_rule_lem}
use fusion_router.Compiler.Policy.Enforced.{is_permitted, is_denied, policy_lem}

abbrev node : ℕ → IrNodeKind → IrNode Text
node n kind = record { id = n; kind = kind; strategy = single; model = none; config = [] }

abbrev edge : ℕ → ℕ → IrEdge
edge a b = record { from = a; to = b; condition = none }

-- A diamond from 1 to 4, and an orphan 5.
abbrev diamond : WorkflowIr Text
diamond = record {
  plan_id = 0;
  nodes = node 1 split ∷ node 2 generate ∷ node 3 generate ∷ node 4 join ∷ node 5 generate ∷ [];
  edges = edge 1 2 ∷ edge 1 3 ∷ edge 2 4 ∷ edge 3 4 ∷ [];
  metadata = record {
    policy_applied = [];
    policy_version = 0;
    estimated_cost = record { nanos = 0 };
    estimated_tokens = 0;
  };
}

dead_node_elimination_lem_example :
    (All (λ (n : IrNode Text). IsEntry diamond.edges n → ⊥) diamond.nodes
      × (dead_node_elimination diamond ≡ some (ok diamond)))
    ⊎ ((n : IrNode Text) × Among n diamond.nodes
        × IsEntry diamond.edges n
        × ((out : WorkflowIr Text) × (dead_node_elimination diamond ≡ some (ok out))
            × Trimmed diamond out))
dead_node_elimination_lem_example = dead_node_elimination_lem diamond

accepted : control_flow_validation diamond ≡ some (ok diamond)
unfolding control_flow_validation first_error check_edge check_node node_ids detect_illegal_cycles
    three_color_cycle_detect walk walk_all adjacency contains insert get put push_at touch
accepted = refl

control_flow_validation_lem_example :
    (diamond ≡ diamond)
    × All (Known (node_ids diamond.nodes)) diamond.edges
    × All (Shaped diamond.edges) diamond.nodes
    × (detect_illegal_cycles diamond.edges ≡ some none)
control_flow_validation_lem_example = control_flow_validation_lem diamond diamond accepted

no_star : contains (codes "openai/") star ≡ false
unfolding contains
no_star = refl

plain : strip_star (codes "-mini") ≡ none
unfolding strip_star
plain = refl

pattern_matches_lem_example :
    (pattern_matches (codes "openai/" ++ star ∷ codes "-mini") (codes "openai/o4-mini") ≡ true)
    ↔ ((middle : Text) × (codes "openai/o4-mini" ≡ codes "openai/" ++ (middle ++ codes "-mini")))
pattern_matches_lem_example =
    pattern_matches_lem (codes "openai/") (codes "-mini") (codes "openai/o4-mini") no_star plain

abbrev ask_first : PolicyRule Text
ask_first = record {
  rule_id = codes "r1";
  target_pattern = codes "*";
  priority = 5;
  effect = approval;
  conditions = record { field = codes "kind"; expected = codes "Join" } ∷ [];
}

abbrev as_text : Text → Option Text
as_text t = some t

abbrev same_text : Text → Text
same_text t = t

abbrev gate_of : NodeId → NodeId
gate_of id = id + 100

abbrev join_facts : PolicyFacts
join_facts = record {
  model = [];
  strategy = codes "Single";
  node_kind = some (codes "Join");
  capability = none;
}

abbrev chosen : Option (PolicyRule Text)
chosen = evaluate_matching_rule as_text same_text (ask_first ∷ []) (codes "general") join_facts

abbrev Fits : PolicyRule Text → Type 0
Fits s = Matches as_text same_text (codes "general") join_facts s

evaluate_matching_rule_lem_example :
    ((chosen ≡ none) × All (λ s. Fits s → ⊥) (ask_first ∷ []))
    ⊎ ((r : PolicyRule Text) × (chosen ≡ some r)
        × Fits r
        × Placed (λ s. Fits s → Beats s r → ⊥) (λ s. Fits s → Beats r s) r (ask_first ∷ []))
evaluate_matching_rule_lem_example =
    evaluate_matching_rule_lem as_text same_text (codes "general") join_facts (ask_first ∷ [])

abbrev enforced : PassResult (WorkflowIr Text)
enforced = policy as_text same_text same_text gate_of (ask_first ∷ []) diamond

policy_lem_example :
    ((out : WorkflowIr Text) × (enforced ≡ ok out)
      × ((gates : List (IrNode Text)) × (out.nodes ≡ diamond.nodes ++ gates))
      × ((more : List IrEdge) × (out.edges ≡ diamond.edges ++ more))
      × All
          (λ n.
            is_permitted as_text same_text same_text gate_of (ask_first ∷ []) out.nodes out.edges n
            ≡ true)
          diamond.nodes)
    ⊎ ((e : CompilerError) × (enforced ≡ err e)
        × (any (is_denied as_text same_text same_text gate_of (ask_first ∷ [])) diamond.nodes
            ≡ true))
policy_lem_example = policy_lem as_text same_text same_text gate_of (ask_first ∷ []) diamond

abbrev meter : Meter
meter = record {
  quota = record { max_daily_cost = record { nanos = 1_000 }; max_daily_tokens = 50 };
  cost = 900;
  tokens = 10;
}

budget_optimisation-try_apply_example :
    (budget_optimisation Default.manager meter diamond ≡ ok diamond) ↔ (
      (Default.try_apply meter diamond.metadata.estimated_cost.nanos
        diamond.metadata.estimated_tokens).1
      ≡ true)
budget_optimisation-try_apply_example = budget_optimisation-try_apply meter diamond

-- 1 leads to 2, which leads back over an edge marked "loop", and to itself.
abbrev knotted : List IrEdge
knotted =
    record { from = 1; to = 2; condition = none }
    ∷ record { from = 2; to = 1; condition = some (codes "loop") }
    ∷ record { from = 2; to = 2; condition = none }
    ∷ []

detect_illegal_cycles_lem_example :
    (detect_illegal_cycles knotted ≢ none)
    × ((detect_illegal_cycles knotted ≡ some none)
        ↔ ((v : NodeId) → Trail (joined_forward knotted) v v → ⊥))
    × ((node : NodeId)
        → detect_illegal_cycles knotted ≡ some (some node)
        → Trail (joined_forward knotted) node node)
detect_illegal_cycles_lem_example = detect_illegal_cycles_lem knotted

knot_at_2 : detect_illegal_cycles knotted ≡ some (some 2)
unfolding detect_illegal_cycles three_color_cycle_detect walk_all adjacency text_beq touch get
    push_at put walk
knot_at_2 = refl
