-- ===== src/Compiler/Policy/Enforced.antt =====
-- What a graph that passed `PolicyCompilerPass` satisfies.
use fusion_router.Prelude.{
  ◌≡◌, refl, sym, ap, ◌∙◌, ◌⊎◌, inl, inr, Bool, true, false, ◌&&◌, ◌||◌, nat_beq, nat_beq_iff, List,
  [], ◌∷◌, ◌++◌, any, append-nil, append_assoc, Option, none, some, Text, All, arith, Bool-cases,
}
use fusion_router.Compiler.Ir.{
  NodeId, IrNode, IrEdge, WorkflowIr, CompilerError, PassResult, ok, err,
}
use fusion_router.Compiler.Policy.{
  PolicyRule, PolicyEffect, deny, approval, allow, rule_for, already_guarded, gate_node, gate_edge,
  is_gate, Progress, insert_gate, denial, enforce_node, enforce_all, policy,
}

module _ {V : Type 0} (as_str : V → Option Text) (to_string : V → Text) (debug : Text → Text)
    (new_v5 : NodeId → NodeId) (rules : List (PolicyRule V)) where
  abbrev governing : IrNode V → Option (PolicyRule V)
  governing n = rule_for as_str to_string debug new_v5 rules n

  abbrev guarded : List (IrNode V) → List IrEdge → NodeId → Bool
  guarded nodes edges id = already_guarded nodes edges id

  -- A node that no rule denies, and that is guarded if its rule asks for approval.
  abbrev pub is_permitted : List (IrNode V) → List IrEdge → IrNode V → Bool
  is_permitted nodes edges n = elim (governing n) [
    | none ↦ true
    | some r ↦ elim r.effect [ deny ↦ false | approval ↦ guarded nodes edges n.id | allow ↦ true ]
  ]

  abbrev pub is_denied : IrNode V → Bool
  is_denied n = elim (governing n) [
    | none ↦ false
    | some r ↦ elim r.effect [ deny ↦ true | approval ↦ false | allow ↦ false ]
  ]

  any-append :
      {A : Type 0} (p : A → Bool) (xs ys : List A) → any p (xs ++ ys) ≡ (any p xs || any p ys)
  any-append p [] ys = refl
  any-append p (x ∷ xs) ys = ground (arith, any-append p xs ys)

  -- More nodes and edges guard no less.
  guarded-nodes :
      (nodes more : List (IrNode V)) (edges : List IrEdge) (id : NodeId)
      → guarded nodes edges id ≡ true
      → guarded (nodes ++ more) edges id ≡ true
  unfolding already_guarded
  guarded-nodes nodes more [] id h = h
  guarded-nodes nodes more (e ∷ edges) id h = ground (
    arith,
    guarded-nodes nodes more edges id,
    any-append (λ (m : IrNode V). nat_beq m.id e.from && is_gate m.kind) nodes more,
  )

  guarded-edges :
      (nodes : List (IrNode V)) (edges more : List IrEdge) (id : NodeId)
      → guarded nodes edges id ≡ true
      → guarded nodes (edges ++ more) id ≡ true
  unfolding already_guarded
  guarded-edges nodes edges more id h = ground (
    arith,
    any-append
        (λ (e : IrEdge).
          nat_beq e.to id && any (λ (m : IrNode V). nat_beq m.id e.from && is_gate m.kind) nodes)
        edges more,
  )

  abbrev inserted :
      List (IrNode V) → NodeId → List IrEdge × List (IrNode V) → List IrEdge × List (IrNode V)
  inserted nodes id done = insert_gate new_v5 nodes id done

  -- An inserted gate guards its node in the graph that the pass returns.
  insert_gate-guards :
      (nodes : List (IrNode V)) (id : NodeId) (edges : List IrEdge) (gates : List (IrNode V))
      → guarded
          (nodes ++ (inserted nodes id (edges, gates)).1)
          (inserted nodes id (edges, gates)).0
          id
        ≡ true
  unfolding insert_gate already_guarded
  insert_gate-guards nodes id edges gates = elim (Bool-cases (guarded nodes edges id)) [
    | inl old ↦ rw old (guarded-nodes nodes gates edges id old)
    | inr new ↦ rw new (
        ground (
          arith,
          any-append
              (λ (e : IrEdge).
                nat_beq e.to id
                && any (λ (m : IrNode V). nat_beq m.id e.from && is_gate m.kind)
                    (nodes ++ (gates ++ gate_node new_v5 id ∷ [])))
              edges (gate_edge new_v5 id ∷ []),
          any-append (λ (m : IrNode V). nat_beq m.id (new_v5 id) && is_gate m.kind) nodes
              (gates ++ gate_node new_v5 id ∷ []),
          any-append (λ (m : IrNode V). nat_beq m.id (new_v5 id) && is_gate m.kind) gates
              (gate_node new_v5 id ∷ []),
          nat_beq_iff id id,
          nat_beq_iff (new_v5 id) (new_v5 id),
        ))
  ]

  -- Later progress keeps the edges and the gates of the earlier.
  abbrev Extends : Progress V → Progress V → Type 0
  Extends a b =
      ((es : List IrEdge) × (b.0 ≡ a.0 ++ es)) × ((gs : List (IrNode V)) × (b.1 ≡ a.1 ++ gs))

  Extends-refl : (a : Progress V) → Extends a a
  Extends-refl a = (([], sym (append-nil a.0)), ([], sym (append-nil a.1)))

  Extends-trans : (a b c : Progress V) → Extends a b → Extends b c → Extends a c
  Extends-trans a b c ((es, e), (gs, g)) ((fs, f), (hs, h)) = (
    (es ++ fs, f ∙ ap (λ xs. xs ++ fs) e ∙ append_assoc a.0 es fs),
    (gs ++ hs, h ∙ ap (λ xs. xs ++ hs) g ∙ append_assoc a.1 gs hs),
  )

  insert_gate-Extends :
      (nodes : List (IrNode V)) (id : NodeId) (done : Progress V)
      → Extends done (inserted nodes id done)
  unfolding insert_gate
  insert_gate-Extends nodes id (edges, gates) = elim (Bool-cases (guarded nodes edges id)) [
    | inl old ↦ rw old (Extends-refl (edges, gates))
    | inr new ↦ rw new ((gate_edge new_v5 id ∷ [], refl), (gate_node new_v5 id ∷ [], refl))
  ]

  permitted_later :
      (nodes : List (IrNode V)) (a b : Progress V) (n : IrNode V)
      → Extends a b
      → is_permitted (nodes ++ a.1) a.0 n ≡ true
      → is_permitted (nodes ++ b.1) b.0 n ≡ true
  permitted_later nodes a b n ((es, e), (gs, g)) h =
      rw (e, g, ← append_assoc nodes a.1 gs)
        (ground (
          arith,
          guarded-edges (nodes ++ a.1) a.0 es n.id,
          guarded-nodes (nodes ++ a.1) gs (a.0 ++ es) n.id,
        ))

  abbrev NodeResult : List (IrNode V) → IrNode V → Progress V → PassResult (Progress V) → Type 0
  NodeResult nodes n done result =
      ((next : Progress V) × (result ≡ ok next)
        × Extends done next
        × (is_permitted (nodes ++ next.1) next.0 n ≡ true))
      ⊎ ((e : CompilerError) × (result ≡ err e) × (is_denied n ≡ true))

  abbrev one_round : List (IrNode V) → IrNode V → Progress V → PassResult (Progress V)
  one_round nodes n done = enforce_node as_str to_string debug new_v5 rules nodes n done

  enforce_node_lem :
      (nodes : List (IrNode V)) (n : IrNode V) (done : Progress V) (g : Option (PolicyRule V))
      → governing n ≡ g
      → NodeResult nodes n done (one_round nodes n done)
  unfolding enforce_node
  enforce_node_lem nodes n done none h =
      inl (done, rw (h, enforce_node) refl, Extends-refl done, rw (h, is_permitted) refl)
  enforce_node_lem nodes n done (some r) h = by_effect r.effect refl
    where
      by_effect :
          (f : PolicyEffect) → r.effect ≡ f → NodeResult nodes n done (one_round nodes n done)
      by_effect deny k = inr (denial r n, rw (h, enforce_node, k) refl, rw (h, is_denied, k) refl)
      by_effect approval k = inl (
        inserted nodes n.id done,
        rw (h, enforce_node, k) refl,
        insert_gate-Extends nodes n.id done,
        rw (h, is_permitted, k) (insert_gate-guards nodes n.id done.0 done.1),
      )
      by_effect allow k =
          inl (done, rw (h, enforce_node, k) refl, Extends-refl done, rw (h, is_permitted, k) refl)

  abbrev AllResult :
      List (IrNode V) → List (IrNode V) → Progress V → PassResult (Progress V) → Type 0
  AllResult nodes rest done result =
      ((last : Progress V) × (result ≡ ok last)
        × Extends done last
        × All (λ n. is_permitted (nodes ++ last.1) last.0 n ≡ true) rest)
      ⊎ ((e : CompilerError) × (result ≡ err e) × (any is_denied rest ≡ true))

  enforce_all_lem :
      (nodes rest : List (IrNode V)) (done : Progress V)
      → AllResult nodes rest done (enforce_all as_str to_string debug new_v5 rules nodes rest done)
  unfolding enforce_all
  enforce_all_lem nodes [] done = inl (done, refl, Extends-refl done, tt)
  enforce_all_lem nodes (n ∷ rest) done = elim (enforce_node_lem nodes n done (governing n) refl) [
    | inr (e, run, denied) ↦ inr (e, rw (run, enforce_all) refl, ground arith)
    | inl (next, run, grows, fine) ↦ elim (enforce_all_lem nodes rest next) [
      | inr (e, go_on, denied) ↦ inr (e, rw (run, enforce_all) go_on, ground arith)
      | inl (last, go_on, grows_on, all_fine) ↦ inl (
        last,
        rw (run, enforce_all) go_on,
        Extends-trans done next last grows grows_on,
        (permitted_later nodes next last n grows_on fine, all_fine),
      )
    ]
  ]

  -- The pass returns a graph or an error. If it returns a graph, then that graph has the nodes and the
  -- edges of the input, followed by further ones; no node of the input is governed by a rule that
  -- denies it, and each that is governed by a rule that asks for approval has an edge from a gate of
  -- the graph. If it returns an error, a rule denies a node of the input.
  pub policy_lem :
      (ir : WorkflowIr V)
      → ((out : WorkflowIr V) × (policy as_str to_string debug new_v5 rules ir ≡ ok out)
          × ((gates : List (IrNode V)) × (out.nodes ≡ ir.nodes ++ gates))
          × ((more : List IrEdge) × (out.edges ≡ ir.edges ++ more))
          × All (λ n. is_permitted out.nodes out.edges n ≡ true) ir.nodes)
        ⊎ ((e : CompilerError) × (policy as_str to_string debug new_v5 rules ir ≡ err e)
            × (any is_denied ir.nodes ≡ true))
  unfolding policy
  policy_lem ir = elim (enforce_all_lem ir.nodes ir.nodes (ir.edges, [])) [
    | inl (last, run, (more, gates), all_permitted) ↦ inl (
      record ir { nodes = ir.nodes ++ last.1; edges = last.0 },
      rw (run, policy) refl,
      (last.1, refl),
      more,
      all_permitted,
    )
    | inr (e, run, denied) ↦ inr (e, rw (run, policy) refl, denied)
  ]
