-- ===== src/Workflow/Builder/Kept.antt =====
-- What `WorkflowBuilder` of crates/fusion-ir/src/builder.rs keeps.
use fusion_router.Prelude.{
  ◌≡◌, refl, sym, subst, ap, ◌∙◌, true, false, ◌||◌, List, [], ◌∷◌, ◌++◌, Option, none, some, arith,
  nat_beq, nat_beq_iff, nat_eq, Text, Bool-cases, Option-cases, inl, inr, some-inj, if-both,
}
use fusion_router.Prelude.Sets.{contains, insert, contains-insert}
use fusion_router.Prelude.Counting.{distinct}
use fusion_router.Json.{Members}
use fusion_router.Workflow.{NodeId, WorkflowEdgeKind, WorkflowNode, WorkflowEdge}
use fusion_router.Workflow.Structure.Accepted.{ids_of}
use fusion_router.Workflow.Cycles.Decided.{are_known}
use fusion_router.Workflow.Builder.{
  Result, ok, err, WorkflowBuilder, new, add_node_with_model, set_config, with_nodes, with_config,
  edge,
}

pub data Call : Type 0 where
  node : WorkflowNode → Call
  config : NodeId → Members → Call
  joins : NodeId → NodeId → WorkflowEdgeKind → Option Text → Call

abbrev pub apply : Call → WorkflowBuilder → Result WorkflowBuilder
apply (node n) b = add_node_with_model n b
apply (config id c) b = with_config id c b
apply (joins from to kind condition) b = edge from to kind condition b

abbrev pub then_apply : Call → Result WorkflowBuilder → Result WorkflowBuilder
then_apply call (ok b) = apply call b
then_apply call (err e) = err e

-- The builder after the calls, the last one first, unless one of them failed.
abbrev pub built : List Call → Result WorkflowBuilder
built [] = ok new
built (call ∷ calls) = then_apply call (built calls)

pub record IsKept (b : WorkflowBuilder) : Type 0 where
  pub once : distinct (ids_of b.nodes) ≡ true
  pub known : are_known (ids_of b.nodes) b.edges ≡ true
  pub same_ids : (v : NodeId) → contains b.seen v ≡ contains (ids_of b.nodes) v

-- A result that is a builder with the property, or an error.
abbrev pub Keeps : Result WorkflowBuilder → Type 0
Keeps (ok b) = IsKept b
Keeps (err e) = Unit

ids-append :
    (nodes : List WorkflowNode) (n : WorkflowNode)
    → ids_of (nodes ++ n ∷ []) ≡ ids_of nodes ++ n.id ∷ []
ids-append [] n = refl
ids-append (m ∷ nodes) n = ap (λ xs. m.id ∷ xs) (ids-append nodes n)

snoc-contains :
    (ids : List NodeId) (id v : NodeId)
    → contains (ids ++ id ∷ []) v ≡ (contains ids v || nat_beq id v)
unfolding contains
snoc-contains [] id v = ground arith
snoc-contains (i ∷ ids) id v = ground (arith, snoc-contains ids id v)

snoc-distinct :
    (ids : List NodeId) (id : NodeId)
    → distinct ids ≡ true
    → contains ids id ≡ false
    → distinct (ids ++ id ∷ []) ≡ true
unfolding distinct contains
snoc-distinct [] id d f = refl
snoc-distinct (i ∷ ids) id d f =
    ground (arith, snoc-distinct ids id, snoc-contains ids id i, nat_beq_iff i id, nat_beq_iff id i)

are_known-grow :
    (ids more : List NodeId) (edges : List WorkflowEdge)
    → ((v : NodeId) → contains ids v ≡ true → contains more v ≡ true)
    → are_known ids edges ≡ true
    → are_known more edges ≡ true
are_known-grow ids more [] f h = refl
are_known-grow ids more (e ∷ edges) f h =
    ground (arith, f e.from, f e.to, are_known-grow ids more edges f)

are_known-snoc :
    (ids : List NodeId) (edges : List WorkflowEdge) (e : WorkflowEdge)
    → are_known ids edges ≡ true
    → contains ids e.from ≡ true
    → contains ids e.to ≡ true
    → are_known ids (edges ++ e ∷ []) ≡ true
are_known-snoc ids [] e h f t = ground (arith, f, t)
are_known-snoc ids (x ∷ edges) e h f t = ground (arith, are_known-snoc ids edges e, h, f, t)

set_config-ids :
    (id : NodeId) (c : Members) (nodes changed : List WorkflowNode)
    → set_config id c nodes ≡ some changed
    → ids_of changed ≡ ids_of nodes
unfolding set_config
set_config-ids id c [] changed h = absurd (cc h)
set_config-ids id c (n ∷ nodes) changed h = elim (Bool-cases (nat_beq n.id id)) [
  | inl here ↦ ap ids_of (sym (some-inj _ _ (rw here at h)))
  | inr there ↦ elim (Option-cases (set_config id c nodes)) [
    | inl missing ↦ absurd (cc (rw (there, missing) at h))
    | inr (rest, found) ↦
        ap ids_of (sym (some-inj _ _ (rw (there, found) at h)))
        ∙ ap (λ xs. n.id ∷ xs) (set_config-ids id c nodes rest found)
  ]
]

with_nodes-Keeps :
    (id : NodeId) (o : Option (List WorkflowNode)) (b : WorkflowBuilder)
    → ((changed : List WorkflowNode) → o ≡ some changed → ids_of changed ≡ ids_of b.nodes)
    → IsKept b
    → Keeps (with_nodes id o b)
with_nodes-Keeps id none b f h = tt
with_nodes-Keeps id (some changed) b f h =
    let same = f changed refl in
    record {
      once = subst (λ xs. distinct xs ≡ true) (sym same) h.once;
      known = subst (λ xs. are_known xs b.edges ≡ true) (sym same) h.known;
      same_ids = λ v. h.same_ids v ∙ ap (λ xs. contains xs v) (sym same);
    }

node-IsKept :
    (n : WorkflowNode) (b : WorkflowBuilder)
    → contains b.seen n.id ≡ false
    → IsKept b
    → IsKept (record b { nodes = b.nodes ++ n ∷ []; seen = insert n.id b.seen })
node-IsKept n b fresh h =
    let ids = ids_of b.nodes in
    let grown = ids-append b.nodes n in
    let grows = λ (v : NodeId). snoc-contains ids n.id v in
    record {
      once =
          subst (λ xs. distinct xs ≡ true) (sym grown)
            (snoc-distinct ids n.id h.once (sym (h.same_ids n.id) ∙ fresh));
      known =
          subst (λ xs. are_known xs b.edges ≡ true) (sym grown)
            (are_known-grow ids (ids ++ n.id ∷ []) b.edges (λ v m. ground (arith, grows v, m))
              h.known);
      same_ids = λ v.
          let at = ap (λ xs. contains xs v) grown in
          let inserted = contains-insert n.id v b.seen in
          ground (arith, at, grows v, inserted, h.same_ids v);
    }

edge-IsKept :
    (e : WorkflowEdge) (b : WorkflowBuilder)
    → contains b.seen e.from ≡ true
    → contains b.seen e.to ≡ true
    → IsKept b
    → IsKept (record b { edges = b.edges ++ e ∷ [] })
edge-IsKept e b f t h = record {
  once = h.once;
  known =
      are_known-snoc (ids_of b.nodes) b.edges e h.known (sym (h.same_ids e.from) ∙ f)
        (sym (h.same_ids e.to) ∙ t);
  same_ids = h.same_ids;
}

apply-Keeps : (call : Call) (b : WorkflowBuilder) → IsKept b → Keeps (apply call b)
unfolding add_node_with_model with_config edge
apply-Keeps (node n) b h =
    if-both Keeps (contains b.seen n.id) (λ _. tt) (λ fresh. node-IsKept n b fresh h)
apply-Keeps (config id c) b h =
    with_nodes-Keeps id (set_config id c b.nodes) b (set_config-ids id c b.nodes) h
apply-Keeps (joins from to kind condition) b h =
    if-both Keeps (contains b.seen from)
      (λ f. if-both Keeps (contains b.seen to) (λ t. edge-IsKept _ b f t h) (λ _. tt)) (λ _. tt)

then_apply-Keeps : (call : Call) (r : Result WorkflowBuilder) → Keeps r → Keeps (then_apply call r)
then_apply-Keeps call (ok b) h = apply-Keeps call b h
then_apply-Keeps call (err e) h = tt

built-Keeps : (calls : List Call) → Keeps (built calls)
unfolding distinct
built-Keeps [] = record { once = refl; known = refl; same_ids = λ v. refl }
built-Keeps (call ∷ calls) = then_apply-Keeps call (built calls) (built-Keeps calls)

Keeps-IsKept : (r : Result WorkflowBuilder) (b : WorkflowBuilder) → Keeps r → r ≡ ok b → IsKept b
Keeps-IsKept (ok c) b h e = subst Keeps e h
Keeps-IsKept (err _) b h e = absurd (cc e)

-- Whatever calls made a builder, unless one of them failed, its nodes have different ids, its edges
-- join its nodes, and the ids that it has seen are those of its nodes.
pub built-IsKept : (calls : List Call) (b : WorkflowBuilder) → built calls ≡ ok b → IsKept b
built-IsKept calls b e = Keeps-IsKept (built calls) b (built-Keeps calls) e
