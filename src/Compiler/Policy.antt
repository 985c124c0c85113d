-- ===== src/Compiler/Policy.antt =====
-- Policies and the pass that enforces them: crates/fusion-compiler/src/policy.rs and
-- `PolicyCompilerPass` of crates/fusion-compiler/src/lib.rs. The JSON values of conditions, the Debug
-- format of a text and `Uuid::new_v5` are other packages' code and so parameters. The trace of the
-- pass, which it drops, and a rule's actions, which nothing here reads, are left out.
pub mod Pattern
pub mod Placed
pub mod Matching
pub mod Precedence
pub mod Enforced
use fusion_router.Prelude.{
  ℕ, ◌+◌, Bool, true, false, not, ◌&&◌, ◌||◌, nat_beq, ltb, leb, nat_eq, text_eq, ◌==◌,
  if◌then◌else◌, List, [], ◌∷◌, ◌++◌, length, keep, any, all, Option, none, some, Text, codes,
}
use fusion_router.Prelude.Maps.{Map, get}
use fusion_router.Compiler.Ir.{
  NodeId, IrNodeKind, generate, review, judge, transform, gate, conditional, loop, split, join,
  barrier, StrategyKind, single, consensus, reflection, chain, debate, re_act, fusion, custom,
  IrNode, IrEdge, WorkflowIr, CompilerError, PassResult, ok, err, rule_denies,
}
use fusion_router.Compiler.Policy.Pattern.{pattern_matches}

pub data PolicyEffect : Type 0 where
  deny approval allow : PolicyEffect

pub record PolicyCondition (V : Type 0) : Type 0 where
  pub field : Text
  pub expected : V

pub record PolicyRule (V : Type 0) : Type 0 where
  pub rule_id : Text
  pub target_pattern : Text
  pub priority : ℕ
  pub effect : PolicyEffect
  pub conditions : List (PolicyCondition V)

pub record PolicyFacts : Type 0 where
  pub model : Text
  pub strategy : Text
  pub node_kind : Option Text
  pub capability : Option Text

-- The place of an effect in the derived order.
abbrev pub rank : PolicyEffect → ℕ
rank deny = 0
rank approval = 1
rank allow = 2

-- `is_at_most a b`: the key `(Reverse(effect), priority)` of a is at most that of b.
abbrev pub is_at_most : {V : Type 0} → PolicyRule V → PolicyRule V → Bool
is_at_most a b =
    ltb (rank b.effect) (rank a.effect)
    || (nat_beq (rank b.effect) (rank a.effect) && leb a.priority b.priority)

-- `max_by_key`, which returns the last of the greatest.
unfoldable pub max_from : {V : Type 0} → PolicyRule V → List (PolicyRule V) → PolicyRule V
max_from best [] = best
max_from best (r ∷ rules) = max_from (if is_at_most best r then r else best) rules

unfoldable pub max_rule : {V : Type 0} → List (PolicyRule V) → Option (PolicyRule V)
max_rule [] = none
max_rule (r ∷ rules) = some (max_from r rules)

abbrev pub kind_tag : IrNodeKind → Text
kind_tag generate = codes "Generate"
kind_tag review = codes "Review"
kind_tag judge = codes "Judge"
kind_tag transform = codes "Transform"
kind_tag gate = codes "Gate"
kind_tag conditional = codes "Conditional"
kind_tag loop = codes "Loop"
kind_tag split = codes "Split"
kind_tag join = codes "Join"
kind_tag barrier = codes "Barrier"

unfoldable pub as_label : (Text → Text) → StrategyKind → Text
as_label debug single = codes "Single"
as_label debug consensus = codes "Consensus"
as_label debug reflection = codes "Reflection"
as_label debug chain = codes "Chain"
as_label debug debate = codes "Debate"
as_label debug re_act = codes "ReAct"
as_label debug fusion = codes "Fusion"
as_label debug (custom name) = codes "Custom(" ++ debug name ++ codes ")"

abbrev pub or_else {ℓ} : {A : Type ℓ} → Option A → Option A → Option A
or_else none other = other
or_else (some a) other = some a

abbrev pub unwrap_or {ℓ} : {A : Type ℓ} → Option A → A → A
unwrap_or none other = other
unwrap_or (some a) other = a

abbrev pub is_gate : IrNodeKind → Bool
is_gate gate = true
is_gate _ = false

module _ {V : Type 0} where
  unfoldable pub already_guarded : List (IrNode V) → List IrEdge → NodeId → Bool
  already_guarded nodes edges id =
      any
        (λ (e : IrEdge).
          nat_beq e.to id && any (λ (m : IrNode V). nat_beq m.id e.from && is_gate m.kind) nodes)
        edges

  abbrev pub denial : PolicyRule V → IrNode V → CompilerError
  denial r n = record {
    pass = codes "policy";
    node_id = some n.id;
    message = rule_denies r.rule_id r.target_pattern n.id;
  }

  abbrev pub gate_node : (NodeId → NodeId) → NodeId → IrNode V
  gate_node new_v5 id = record {
    id = new_v5 id;
    kind = gate;
    strategy = single;
    model = some (codes "policy.approval_gate");
    config = [];
  }

abbrev pub gate_edge : (NodeId → NodeId) → NodeId → IrEdge
gate_edge new_v5 id = record { from = new_v5 id; to = id; condition = none }

-- The edges so far and the gates inserted so far.
abbrev pub Progress : Type 0 → Type 0
Progress V = List IrEdge × List (IrNode V)

unfoldable pub insert_gate :
    {V : Type 0} → (NodeId → NodeId) → List (IrNode V) → NodeId → Progress V → Progress V
insert_gate new_v5 nodes id (edges, gates) =
    if already_guarded nodes edges id
    then (edges, gates)
    else (edges ++ gate_edge new_v5 id ∷ [], gates ++ gate_node new_v5 id ∷ [])

module _ {V : Type 0} (as_str : V → Option Text) (to_string : V → Text) where
  abbrev pub fact : Text → PolicyFacts → Option Text
  fact field facts =
      if field == codes "kind"
      then facts.node_kind
      else if field == codes "model"
      then some facts.model
      else if field == codes "strategy"
      then some facts.strategy
      else if field == codes "capability"
      then facts.capability
      else none

  unfoldable pub evaluate_condition : PolicyFacts → PolicyCondition V → Bool
  evaluate_condition facts c = elim (fact c.field facts) [
    | none ↦ false
    | some value ↦ value == unwrap_or (as_str c.expected) (to_string c.expected)
  ]

  unfoldable pub is_matching : Text → PolicyFacts → PolicyRule V → Bool
  is_matching target facts r =
      pattern_matches r.target_pattern target && all (evaluate_condition facts) r.conditions

  unfoldable pub evaluate_matching_rule :
      List (PolicyRule V) → Text → PolicyFacts → Option (PolicyRule V)
  evaluate_matching_rule rules target facts = max_rule (keep (is_matching target facts) rules)

  module _ (debug : Text → Text) (new_v5 : NodeId → NodeId) where
    abbrev pub capability_of : IrNode V → Option Text
    capability_of n = elim (get (codes "capability") n.config) [ none ↦ none | some v ↦ as_str v ]

    abbrev pub symbol_key : IrNode V → Text
    symbol_key n = unwrap_or (or_else (capability_of n) n.model) (codes "general")

    abbrev pub facts_of : IrNode V → PolicyFacts
    facts_of n = record {
      model = unwrap_or n.model [];
      strategy = as_label debug n.strategy;
      node_kind = some (kind_tag n.kind);
      capability = capability_of n;
    }

    -- The rule that governs a node.
    unfoldable pub rule_for : List (PolicyRule V) → IrNode V → Option (PolicyRule V)
    rule_for rules n = evaluate_matching_rule rules (symbol_key n) (facts_of n)

    -- One round: the progress after a node, or the rule that denies it.
    unfoldable pub enforce_node :
        List (PolicyRule V) → List (IrNode V) → IrNode V → Progress V → PassResult (Progress V)
    enforce_node rules nodes n done = elim (rule_for rules n) [
      | none ↦ ok done
      | some r ↦ elim r.effect [
        | deny ↦ err (denial r n)
        | approval ↦ ok (insert_gate new_v5 nodes n.id done)
        | allow ↦ ok done
      ]
    ]

    unfoldable pub enforce_all :
        List (PolicyRule V)
        → List (IrNode V)
        → List (IrNode V)
        → Progress V
        → PassResult (Progress V)
    enforce_all rules nodes [] done = ok done
    enforce_all rules nodes (n ∷ rest) done = elim (enforce_node rules nodes n done) [
      | ok next ↦ enforce_all rules nodes rest next
      | err e ↦ err e
    ]

    unfoldable pub policy : List (PolicyRule V) → WorkflowIr V → PassResult (WorkflowIr V)
    policy rules ir = elim (enforce_all rules ir.nodes ir.nodes (ir.edges, [])) [
      | ok (edges, gates) ↦ ok (record ir { nodes = ir.nodes ++ gates; edges = edges })
      | err e ↦ err e
    ]
