-- ===== src/Compiler/ControlFlow/Checked.antt =====
-- What a graph that passed `ControlFlowValidationPass` satisfies.
use fusion_router.Prelude.{
  ◌≤◌, ◌≡◌, refl, Bool, true, ◌&&◌, nat_beq, List, [], ◌∷◌, length, any, Option, none, some,
  Option-cases, Bool-cases, inl, inr, codes, text_eq, nat_eq, All, arith,
}
use fusion_router.Prelude.Sets.{contains}
use fusion_router.Prelude.Maps.{get}
use fusion_router.Compiler.Ir.{
  NodeId, IrNodeKind, generate, review, judge, transform, gate, conditional, loop, split, join,
  barrier, IrNode, IrEdge, WorkflowIr, CompilerError, ok,
}
use fusion_router.Compiler.ControlFlow.{
  is_some, outgoing, incoming, first_error, check_edge, node_ids, check_node,
  control_flow_validation,
}
use fusion_router.Compiler.ControlFlow.Cycles.{detect_illegal_cycles}

first_error-All :
    {A : Type 0} (check : A → Option CompilerError) (xs : List A)
    → first_error check xs ≡ none
    → All (λ x. check x ≡ none) xs
unfolding first_error
first_error-All check [] h = tt
first_error-All check (x ∷ xs) h = elim (Option-cases (check x)) [
  | inl fine ↦ (fine, first_error-All check xs (rw (fine, first_error) at h))
  | inr (e, bad) ↦ absurd (cc (rw (bad, first_error) at h))
]

All-map :
    {A : Type 0} (P Q : A → Type 0) (xs : List A) → ((x : A) → P x → Q x) → All P xs → All Q xs
All-map P Q [] f h = tt
All-map P Q (x ∷ xs) f h = (f x h.0, All-map P Q xs f h.1)

abbrev pub Known : List NodeId → IrEdge → Type 0
Known ids e = (contains ids e.from ≡ true) × (contains ids e.to ≡ true)

check_edge-Known : (ids : List NodeId) (e : IrEdge) → check_edge ids e ≡ none → Known ids e
unfolding check_edge
check_edge-Known ids e h = elim (Bool-cases (contains ids e.from)) [
  | inr bad ↦ absurd (ground arith)
  | inl from ↦ elim (Bool-cases (contains ids e.to)) [
    | inl to ↦ (from, to)
    | inr bad ↦ absurd (ground arith)
  ]
]

module _ {V : Type 0} where
  -- What the graph's shape asks of a control node.
  abbrev pub Shaped : List IrEdge → IrNode V → Type 0
  Shaped edges n = elim n.kind [
    | conditional ↦ any (λ (e : IrEdge). nat_beq e.from n.id && is_some e.condition) edges ≡ true
    | loop ↦
        (1 ≤ length (outgoing edges n.id))
        × (is_some (get (codes "max_iterations") n.config) ≡ true)
    | split ↦ 2 ≤ length (outgoing edges n.id)
    | join ↦ 2 ≤ length (incoming edges n.id)
    | barrier ↦ (1 ≤ length (incoming edges n.id)) × (1 ≤ length (outgoing edges n.id))
    | _ ↦ Unit
  ]

any-outgoing :
    (id : NodeId) (p : IrEdge → Bool) (edges : List IrEdge)
    → any p (outgoing edges id) ≡ any (λ (e : IrEdge). nat_beq e.from id && p e) edges
any-outgoing id p [] = refl
any-outgoing id p (e ∷ edges) = ground (arith, any-outgoing id p edges)

module _ {V : Type 0} where
  check_node-Shaped :
      (edges : List IrEdge) (n : IrNode V) → check_node edges n ≡ none → Shaped edges n
  unfolding check_node
  check_node-Shaped edges n h = by_kind n.kind refl
    where
      by_kind : (k : IrNodeKind) → n.kind ≡ k → Shaped edges n
      by_kind conditional e =
          let checks = rw (e, check_node) at h in
          rw (e, Shaped)
            (ground (arith, any-outgoing n.id (λ (d : IrEdge). is_some d.condition) edges))
      by_kind loop e =
          let checks = rw (e, check_node) at h in rw (e, Shaped) (ground arith, ground arith)
      by_kind split e = let checks = rw (e, check_node) at h in rw (e, Shaped) (ground arith)
      by_kind join e = let checks = rw (e, check_node) at h in rw (e, Shaped) (ground arith)
      by_kind barrier e =
          let checks = rw (e, check_node) at h in rw (e, Shaped) (ground arith, ground arith)
      by_kind generate e = rw (e, Shaped) tt
      by_kind review e = rw (e, Shaped) tt
      by_kind judge e = rw (e, Shaped) tt
      by_kind transform e = rw (e, Shaped) tt
      by_kind gate e = rw (e, Shaped) tt

  -- A graph that the pass accepts is returned as it is. Each of its edges joins nodes of the graph;
  -- each conditional node has an outgoing edge with a condition, each loop an outgoing edge and a
  -- bound on its iterations, each split two outgoing and each join two incoming edges, and each
  -- barrier edges on both sides; and no illegal cycle was found.
  pub control_flow_validation_lem :
      (ir out : WorkflowIr V)
      → control_flow_validation ir ≡ some (ok out)
      → (out ≡ ir)
        × All (Known (node_ids ir.nodes)) ir.edges
        × All (Shaped ir.edges) ir.nodes
        × (detect_illegal_cycles ir.edges ≡ some none)
  unfolding control_flow_validation
  control_flow_validation_lem ir out h =
      elim (Option-cases (first_error (check_edge (node_ids ir.nodes)) ir.edges)) [
        | inr (e, bad) ↦ absurd (cc (rw (bad, control_flow_validation) at h))
        | inl known ↦ elim (Option-cases (first_error (check_node ir.edges) ir.nodes)) [
          | inr (e, bad) ↦ absurd (cc (rw (known, bad, control_flow_validation) at h))
          | inl shaped ↦
              let last = verdict known shaped (detect_illegal_cycles ir.edges) refl in
              (
                last.0,
                All-map (λ e. check_edge (node_ids ir.nodes) e ≡ none) (Known (node_ids ir.nodes))
                    ir.edges (check_edge-Known (node_ids ir.nodes))
                    (first_error-All (check_edge (node_ids ir.nodes)) ir.edges known),
                All-map (λ n. check_node ir.edges n ≡ none) (Shaped ir.edges) ir.nodes
                    (check_node-Shaped ir.edges)
                    (first_error-All (check_node ir.edges) ir.nodes shaped),
                last.1,
              )
        ]
      ]
    where
      verdict :
          first_error (check_edge (node_ids ir.nodes)) ir.edges ≡ none
          → first_error (check_node ir.edges) ir.nodes ≡ none
          → (d : Option (Option NodeId)) → detect_illegal_cycles ir.edges ≡ d
          → (out ≡ ir) × (detect_illegal_cycles ir.edges ≡ some none)
      verdict known shaped none e =
          absurd (cc (rw (known, shaped, e, control_flow_validation) at h))
      verdict known shaped (some none) e =
          (cc (rw (known, shaped, e, control_flow_validation) at h), e)
      verdict known shaped (some (some node)) e =
          absurd (cc (rw (known, shaped, e, control_flow_validation) at h))
