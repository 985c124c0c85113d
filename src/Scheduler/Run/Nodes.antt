-- ===== src/Scheduler/Run/Nodes.antt =====
-- Which ids the scheduler looks up: `node_index` and the edges of the queue, for
-- crates/fusion-scheduler/src/lib.rs.
use fusion_router.Prelude.{
  ◌≡◌, refl, sym, subst, ap, ◌∙◌, Bool, true, List, [], ◌∷◌, some, arith, ltb, nat_beq, nat_beq_iff,
  nat_eq, pair_eq, length, map, keep, All, Bool-cases, Option-cases, inl, inr,
}
use fusion_router.Prelude.Sets.{contains, contains-insert}
use fusion_router.Prelude.Counting.{Subset-refl}
use fusion_router.Prelude.Maps.{Map, get, get_or}
use fusion_router.Scheduler.Graph.{NodeId, ExecutionNode, ExecutionEdge, ExecutionGraph, NodeState}
use fusion_router.Scheduler.Queue.{WorkQueue, new, ids_of, touch_all}
use fusion_router.Scheduler.Queue.Build.{
  pairs, index_edges-Indexed, get_or-touch_all, edges_are_pairs,
}
use fusion_router.Scheduler.Queue.Select.{
  dispatchable, available, get_ready, outgoing_edges, sort_by_id,
}
use fusion_router.Scheduler.Queue.Dispatch.{sort-All, take-All}
use fusion_router.Scheduler.Run.{node_at, targets_where}

abbrev pub ids : List ExecutionNode → List NodeId
ids nodes = map (λ n. n.id) nodes

pub node_at-some :
    (nodes : List ExecutionNode) (id : NodeId)
    → contains (ids nodes) id ≡ true
    → (n : ExecutionNode) × (node_at nodes id ≡ some n)
unfolding contains node_at
node_at-some [] id h = absurd (cc h)
node_at-some (m ∷ nodes) id h = elim (Option-cases (node_at nodes id)) [
  | inl missing ↦ elim (Bool-cases (contains (ids nodes) id)) [
    | inl later ↦ absurd (let (n, e) = node_at-some nodes id later in cc (e, missing))
    | inr never ↦ (m, ground arith)
  ]
  | inr (n, e) ↦ (n, rw (e, node_at) refl)
]

pub node_at-id :
    (nodes : List ExecutionNode) (id : NodeId) (n : ExecutionNode)
    → node_at nodes id ≡ some n
    → n.id ≡ id
unfolding node_at
node_at-id [] id n e = absurd (cc e)
node_at-id (m ∷ nodes) id n e = elim (Option-cases (node_at nodes id)) [
  | inl missing ↦ elim (Bool-cases (nat_beq m.id id)) [
    | inl here ↦
        let same : m ≡ n = ground arith in ap (λ k. k.id) (sym same) ∙ (nat_beq_iff m.id id).0 here
    | inr there ↦ absurd (ground arith)
  ]
  | inr (k, found) ↦ node_at-id nodes id n (ground arith)
]

pub node_at-ids_of :
    (p : ExecutionNode → Bool) (nodes : List ExecutionNode) (id : NodeId) (n : ExecutionNode)
    → node_at nodes id ≡ some n
    → p n ≡ true
    → contains (ids_of p nodes) id ≡ true
unfolding contains node_at ids_of
node_at-ids_of p [] id n e h = cc
node_at-ids_of p (m ∷ nodes) id n e h = elim (Option-cases (node_at nodes id)) [
  | inl missing ↦ elim (Bool-cases (nat_beq m.id id)) [
    | inl here ↦
        let same : m ≡ n = ground arith in
        let holds : p m ≡ true = subst (λ k. p k ≡ true) (sym same) h in
        rw holds (ground (arith, contains-insert m.id id (ids_of p nodes)))
    | inr there ↦ absurd (ground arith)
  ]
  | inr (k, found) ↦
      let same : node_at nodes id ≡ some n = ground arith in
      ground (arith, contains-insert m.id id (ids_of p nodes), node_at-ids_of p nodes id n same h)
]

pub ids_of-ids :
    (p : ExecutionNode → Bool) (nodes : List ExecutionNode) (id : NodeId)
    → contains (ids_of p nodes) id ≡ true
    → contains (ids nodes) id ≡ true
unfolding contains ids_of
ids_of-ids p [] id h = h
ids_of-ids p (m ∷ nodes) id h =
    ground (arith, contains-insert m.id id (ids_of p nodes), ids_of-ids p nodes id)

-- What is handed out are nodes of the graph.
ids-Subset : (nodes : List ExecutionNode) → All (λ i. contains (ids nodes) i ≡ true) (ids nodes)
ids-Subset nodes = Subset-refl (ids nodes)

All-map-ids :
    (known : List NodeId) (nodes : List ExecutionNode)
    → All (λ i. contains known i ≡ true) (ids nodes)
    → All (λ n. contains known n.id ≡ true) nodes
All-map-ids known [] h = tt
All-map-ids known (n ∷ nodes) h = (h.0, All-map-ids known nodes h.1)

pub All-keep {ℓ κ} :
    {A : Type ℓ} (P : A → Type κ) (p : A → Bool) (xs : List A) → All P xs → All P (keep p xs)
All-keep P p [] h = tt
All-keep P p (x ∷ xs) h = elim (Bool-cases (p x)) [
  | inl y ↦ rw y (h.0, All-keep P p xs h.1)
  | inr z ↦ rw z (All-keep P p xs h.1)
]

pub get_ready-known :
    (q : WorkQueue) (states : Map NodeId NodeState)
    → All (λ n. contains (ids q.graph.nodes) n.id ≡ true) (get_ready q states)
unfolding get_ready
get_ready-known q states =
    let Known = λ (n : ExecutionNode). contains (ids q.graph.nodes) n.id ≡ true in
    let fit = keep (dispatchable q states) q.graph.nodes in
    let good =
      All-keep Known (dispatchable q states) q.graph.nodes
        (All-map-ids (ids q.graph.nodes) q.graph.nodes (ids-Subset q.graph.nodes)) in
    elim (Bool-cases (ltb (available q) (length fit))) [
      | inl many ↦
          rw (many, get_ready)
            (take-All Known (available q) (sort_by_id fit) (sort-All Known fit good))
      | inr few ↦ rw (few, get_ready) good
    ]

-- The queue's outgoing edges are edges of the graph.
edge_map-known :
    (g : ExecutionGraph) (from : NodeId)
    → All
        (λ e. contains (pairs g) (from, e.target) ≡ true)
        (get_or from [] (new g).outgoing_edges_map)
unfolding new get
edge_map-known g =
    index_edges-Indexed (λ k e. contains (pairs g) (k, e.target) ≡ true) (λ e. e.source) (λ e. e)
      g.edges (touch_all [] g.nodes []) (edges_are_pairs (pairs g) g.edges (Subset-refl (pairs g)))
      (λ k. rw (get_or-touch_all {V = List ExecutionEdge} k [] g.nodes []) tt)

All-targets :
    (P : NodeId → Type 0) (edges : List ExecutionEdge)
    → All (λ e. P e.target) edges
    → All P (map (λ e. e.target) edges)
All-targets P [] h = tt
All-targets P (e ∷ edges) h = (h.0, All-targets P edges h.1)

pub targets_where-known :
    (g : ExecutionGraph) (p : ExecutionEdge → Bool) (q : WorkQueue) (from : NodeId)
    → q.outgoing_edges_map ≡ (new g).outgoing_edges_map
    → All (λ to. contains (pairs g) (from, to) ≡ true) (targets_where p q from)
unfolding targets_where outgoing_edges
targets_where-known g p q from same =
    All-targets (λ to. contains (pairs g) (from, to) ≡ true) (keep p (outgoing_edges q from))
      (All-keep (λ e. contains (pairs g) (from, e.target) ≡ true) p (outgoing_edges q from)
        (subst (λ m. All (λ e. contains (pairs g) (from, e.target) ≡ true) (get_or from [] m))
          (sym same) (edge_map-known g from)))
