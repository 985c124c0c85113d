-- ===== src/Scheduler/Queue/Build.antt =====
-- What `WorkQueue::new` computes: targets in the edge index, totals, and who is ready at first.
use fusion_router.Prelude.{
  ℕ, suc, ◌+◌, ◌≡◌, refl, sym, ◌⊎◌, subst, ◌∙◌, true, false, List, [], ◌∷◌, ◌++◌, Option, arith,
  nat_beq, nat_beq_iff, nat_eq, pair_eq, if◌then◌else◌, map, length, keep, All, Bool-cases, inl,
  inr, Text,
}
use fusion_router.Prelude.Sets.{contains, contains-insert}
use fusion_router.Prelude.Counting.{Subset-refl}
use fusion_router.Prelude.Maps.{Map, get, get_or, get-put}
use fusion_router.Scheduler.Graph.{NodeId, ExecutionNode, ExecutionEdge, ExecutionGraph}
use fusion_router.Scheduler.Queue.{
  Pair, push_at, increment, touch, touch_all, index_edges, edge_pair, count_incoming,
  initially_ready, new,
}

abbrev pub pairs : ExecutionGraph → List Pair
pairs g = map edge_pair g.edges

-- The pairs that lead to a node.
abbrev pub into : NodeId → List Pair → List Pair
into v = keep (λ p. nat_beq p.1 v)

All-snoc {ℓ κ} :
    {V : Type ℓ} (P : V → Type κ) (xs : List V) (v : V) → All P xs → P v → All P (xs ++ v ∷ [])
All-snoc P [] v h p = (p, tt)
All-snoc P (x ∷ xs) v h p = (h.0, All-snoc P xs v h.1 p)

pub get_or-push_at {ℓ} :
    {V : Type ℓ} (k j : NodeId) (v : V) (m : Map NodeId (List V))
    → get_or j [] (push_at k v m) ≡ (if nat_beq k j then get_or k [] m ++ v ∷ [] else get_or j [] m)
unfolding push_at
get_or-push_at k j v m = ground (arith, get-put k j (get_or k [] m ++ v ∷ []) m)

-- A property of every list of an index.
module _ {ℓ κ} {V : Type ℓ} (P : NodeId → V → Type κ) where
  abbrev pub Indexed : Map NodeId (List V) → Type κ
  Indexed m = (k : NodeId) → All (P k) (get_or k [] m)

  push_at-Indexed :
      (k : NodeId) (v : V) (m : Map NodeId (List V)) → P k v → Indexed m → Indexed (push_at k v m)
  push_at-Indexed k v m p h j = elim (Bool-cases (nat_beq k j)) [
    | inl same ↦
        let e : k ≡ j = (nat_beq_iff k j).0 same in
        rw (get_or-push_at k j v m, same)
          (subst (λ i. All (P i) (get_or k [] m ++ v ∷ [])) e
            (All-snoc (P k) (get_or k [] m) v (h k) p))
    | inr other ↦ rw (get_or-push_at k j v m, other) (h j)
  ]

  pub index_edges-Indexed :
      (key : ExecutionEdge → NodeId) (value : ExecutionEdge → V) (edges : List ExecutionEdge)
      (m : Map NodeId (List V))
      → All (λ e. P (key e) (value e)) edges
      → Indexed m
      → Indexed (index_edges key value edges m)
  unfolding index_edges
  index_edges-Indexed key value [] m es h = h
  index_edges-Indexed key value (e ∷ edges) m es h =
      index_edges-Indexed key value edges (push_at (key e) (value e) m) es.1
        (push_at-Indexed (key e) (value e) m es.0 h)

-- Touching a key does not change what is read with the same default.
get_or-touch {ℓ} :
    {V : Type ℓ} (k j : NodeId) (d : V) (m : Map NodeId V) → get_or j d (touch k d m) ≡ get_or j d m
unfolding touch
get_or-touch k j d m = ground (arith, get-put k j d m, nat_beq_iff k j)

pub get_or-touch_all {ℓ} :
    {V : Type ℓ} (j : NodeId) (d : V) (nodes : List ExecutionNode) (m : Map NodeId V)
    → get_or j d (touch_all d nodes m) ≡ get_or j d m
unfolding touch_all
get_or-touch_all j d [] m = refl
get_or-touch_all j d (n ∷ nodes) m =
    get_or-touch_all j d nodes (touch n.id d m) ∙ get_or-touch n.id j d m

-- Every target that the queue has for a source is the target of an edge of the graph.
pub edges_are_pairs :
    (known : List Pair) (edges : List ExecutionEdge)
    → All (λ p. contains known p ≡ true) (map edge_pair edges)
    → All (λ e. contains known (e.source, e.target) ≡ true) edges
edges_are_pairs known [] h = tt
edges_are_pairs known (e ∷ edges) h = (h.0, edges_are_pairs known edges h.1)

pub outgoing_are_edges :
    (g : ExecutionGraph) (from : NodeId)
    → All (λ t. contains (pairs g) (from, t.0) ≡ true) (get_or from [] (new g).outgoing)
unfolding new get
outgoing_are_edges g =
    index_edges-Indexed (λ k t. contains (pairs g) (k, t.0) ≡ true) (λ e. e.source)
      (λ e. (e.target, e.condition)) g.edges (touch_all [] g.nodes [])
      (edges_are_pairs (pairs g) g.edges (Subset-refl (pairs g)))
      (λ k. rw (get_or-touch_all {V = List (NodeId × Option Text)} k [] g.nodes []) tt)

get_or-increment :
    (k j : NodeId) (m : Map NodeId ℕ)
    → get_or j 0 (increment k m) ≡ (if nat_beq k j then suc (get_or j 0 m) else get_or j 0 m)
unfolding increment
get_or-increment k j m = ground (arith, get-put k j (get_or k 0 m + 1) m, nat_beq_iff k j)

-- The total of a node that no back edge enters counts its incoming edges, repeated ones as often.
get_or-count_incoming :
    (v : NodeId) (backs : List Pair) (edges : List ExecutionEdge) (m : Map NodeId ℕ)
    → ((u : NodeId) → contains backs (u, v) ≡ false)
    → get_or v 0 (count_incoming backs edges m)
      ≡ get_or v 0 m + length (into v (map edge_pair edges))
unfolding count_incoming
get_or-count_incoming v backs [] m h = omega arith
get_or-count_incoming v backs (e ∷ edges) m h = elim (Bool-cases (nat_beq e.target v)) [
  | inl here ↦
      let t : e.target ≡ v = (nat_beq_iff e.target v).0 here in
      let plain : contains backs (e.source, e.target) ≡ false =
        subst (λ w. contains backs (e.source, w) ≡ false) (sym t) (h e.source) in
      rw (here, plain)
        (get_or-count_incoming v backs edges (increment e.target m) h
          ∙ ground (arith, get_or-increment e.target v m))
  | inr there ↦ elim (Bool-cases (contains backs (e.source, e.target))) [
    | inl back ↦ rw (there, back) (get_or-count_incoming v backs edges m h)
    | inr plain ↦
        rw (there, plain)
          (get_or-count_incoming v backs edges (increment e.target m) h
            ∙ ground (arith, get_or-increment e.target v m))
  ]
]

pub total-new :
    (g : ExecutionGraph) (v : NodeId)
    → ((u : NodeId) → contains (new g).back_edges (u, v) ≡ false)
    → get_or v 0 (new g).total_incoming ≡ length (into v (pairs g))
unfolding new get
total-new g v h =
    get_or-count_incoming v _ g.edges (touch_all 0 g.nodes []) h
    ∙ omega (arith, get_or-touch_all {V = ℕ} v 0 g.nodes [])

initially_ready-total :
    (totals : Map NodeId ℕ) (nodes : List ExecutionNode) (ready : List NodeId) (v : NodeId)
    → contains (initially_ready totals nodes ready) v ≡ true
    → (contains ready v ≡ true) ⊎ (get_or v 0 totals ≡ 0)
unfolding initially_ready
initially_ready-total totals [] ready v h = inl h
initially_ready-total totals (n ∷ nodes) ready v h =
    let rest = initially_ready-total totals nodes _ v h in
    ground (arith, rest, contains-insert n.id v ready, nat_beq_iff n.id v)

pub ready-new :
    (g : ExecutionGraph) (v : NodeId)
    → contains (new g).ready v ≡ true
    → get_or v 0 (new g).total_incoming ≡ 0
unfolding new contains
ready-new g v h = elim (initially_ready-total _ g.nodes [] v h) [ inl e ↦ cc | inr e ↦ e ]
