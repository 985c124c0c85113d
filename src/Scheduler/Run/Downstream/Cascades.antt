-- ===== src/Scheduler/Run/Downstream/Cascades.antt =====
-- The search of a cascade, as a worklist with an invariant and a measure: `run_inner` of
-- crates/fusion-scheduler/src/lib.rs.
use fusion_router.Prelude.{
  ℕ, zero, suc, ◌+◌, ◌<◌, ◌≡◌, ◌⊎◌, refl, sym, subst, ap, Bool, true, false, List, [], ◌∷◌, some,
  arith, nat_beq, nat_beq_iff, nat_eq, pair_eq, keep, length, Bool-cases, inl, inr, if◌then◌else◌,
}
use fusion_router.Prelude.Sets.{contains, insert, contains-insert}
use fusion_router.Prelude.Maps.{Map, get, put, get-put}
use fusion_router.Scheduler.Graph.{NodeId, ExecutionGraph, NodeState}
use fusion_router.Scheduler.Queue.{mark_failed}
use fusion_router.Scheduler.Queue.Build.{pairs}
use fusion_router.Scheduler.Run.{Run}
use fusion_router.Scheduler.Run.Cascade.{
  push_all, is_waiting, dependency_failed, all_targets, set_failed, expand, visit, cascade,
}
use fusion_router.Scheduler.Run.Settle.{Fixed}
use fusion_router.Scheduler.Run.Downstream.{
  leaves, later, all_targets-leaves, push_all-old, push_all-new, length-push_all, length-ends,
  edge-ends, later-visit, later-expand, later-start,
}

abbrev pub waits : Map NodeId NodeState → NodeId → Bool
waits states v = is_waiting (get v states)

waits-put :
    (d v : NodeId) (states : Map NodeId NodeState)
    → waits (put d dependency_failed states) v ≡ (if nat_beq d v then false else waits states v)
unfolding is_waiting
waits-put d v states =
    rw (get-put d v dependency_failed states)
      (elim (Bool-cases (nat_beq d v)) [ inl here ↦ rw here refl | inr there ↦ rw there refl ])

-- A node is handled when it is the failed one, or waited before and does not wait now.
abbrev pub Handled : NodeId → Map NodeId NodeState → Map NodeId NodeState → NodeId → Type 0
Handled id before states u = (u ≡ id) ⊎ ((waits before u ≡ true) × (waits states u ≡ false))

abbrev pub measure : ExecutionGraph → NodeId → List NodeId → List NodeId → ℕ
measure g id visited stack = length stack + length (keep (later id visited) g.edges)

still-Handled :
    (id d u : NodeId) (before states : Map NodeId NodeState)
    → nat_beq d u ≡ false
    → Handled id before (put d dependency_failed states) u
    → Handled id before states u
still-Handled id d u before states apart (inl e) = inl e
still-Handled id d u before states apart (inr (w, n)) =
    inr (w, ground (arith, waits-put d u states))

-- One search, from the states behind the failure of a node.
module _ {V : Type 0} (g : ExecutionGraph) (id : NodeId) (before : Map NodeId NodeState) where
  pub record Sound (visited stack : List NodeId) (r : Run V) : Type 0 where
    pub fixed : Fixed g r.queue
    pub failed_over : waits r.node_states id ≡ false
    pub seen : (v : NodeId) → contains visited v ≡ true → waits r.node_states v ≡ false
    pub edges :
        (u v : NodeId)
        → contains (pairs g) (u, v) ≡ true
        → Handled id before r.node_states u
        → (contains stack v ≡ true) ⊎ (waits r.node_states v ≡ false)
    pub kept :
        (v : NodeId)
        → (waits before v ≡ false → get v r.node_states ≡ get v before)
          × (waits before v ≡ true
              → (get v r.node_states ≡ get v before)
                ⊎ (get v r.node_states ≡ some dependency_failed))

  skip-Sound :
      (d : NodeId) (visited stack : List NodeId) (r : Run V)
      → waits r.node_states d ≡ false
      → Sound visited (d ∷ stack) r
      → Sound (insert d visited) stack r
  unfolding contains
  skip-Sound d visited stack r over h = record {
    fixed = h.fixed;
    failed_over = h.failed_over;
    seen = λ v m. elim (Bool-cases (nat_beq d v)) [
      | inl here ↦ subst (λ k. waits r.node_states k ≡ false) ((nat_beq_iff d v).0 here) over
      | inr there ↦ h.seen v (ground (arith, contains-insert d v visited))
    ];
    edges = λ u v e handled. elim (Bool-cases (nat_beq d v)) [
      | inl here ↦ inr (subst (λ k. waits r.node_states k ≡ false) ((nat_beq_iff d v).0 here) over)
      | inr there ↦ ground (arith, h.edges u v e handled)
    ];
    kept = h.kept;
  }

  again-Sound :
      (d : NodeId) (visited stack : List NodeId) (r : Run V)
      → contains visited d ≡ true
      → Sound visited (d ∷ stack) r
      → Sound visited stack r
  unfolding contains
  again-Sound d visited stack r old h = record {
    fixed = h.fixed;
    failed_over = h.failed_over;
    seen = h.seen;
    edges = λ u v e handled. elim (Bool-cases (nat_beq d v)) [
      | inl here ↦
          inr (subst (λ k. waits r.node_states k ≡ false) ((nat_beq_iff d v).0 here) (h.seen d old))
      | inr there ↦ ground (arith, h.edges u v e handled)
    ];
    kept = h.kept;
  }

  -- The failed node does not wait.
  not_failed :
      (d : NodeId) (r : Run V)
      → waits r.node_states d ≡ true
      → waits r.node_states id ≡ false
      → nat_beq d id ≡ false
  not_failed d r waiting over = elim (Bool-cases (nat_beq d id)) [
    | inr differs ↦ differs
    | inl same ↦
        absurd
          (cc (subst (λ k. waits r.node_states k ≡ true) ((nat_beq_iff d id).0 same) waiting, over))
  ]

  expand-queue :
      (d : NodeId) (r : Run V) → Fixed g r.queue → Fixed g (set_failed d dependency_failed r).queue
  unfolding set_failed mark_failed
  expand-queue d r fixed = fixed

  still-edge :
      (d v : NodeId) (visited stack : List NodeId) (r : Run V)
      → (contains (d ∷ stack) v ≡ true) ⊎ (waits r.node_states v ≡ false)
      → (contains (expand d visited stack r).1 v ≡ true)
        ⊎ (waits (expand d visited stack r).2.node_states v ≡ false)
  unfolding expand set_failed contains
  still-edge d v visited stack r (inl on_stack) = elim (Bool-cases (nat_beq d v)) [
    | inl here ↦ inr (ground (arith, waits-put d v r.node_states))
    | inr there ↦ inl (push_all-old _ stack v (ground arith))
  ]
  still-edge d v visited stack r (inr over) = inr (ground (arith, waits-put d v r.node_states))

  expand-Sound :
      (d : NodeId) (visited stack : List NodeId) (r : Run V)
      → waits r.node_states d ≡ true
      → Sound visited (d ∷ stack) r
      → Sound (expand d visited stack r).0 (expand d visited stack r).1 (expand d visited stack r).2
  unfolding expand set_failed contains
  expand-Sound d visited stack r waiting h =
      let after = set_failed d dependency_failed r in
      let states = r.node_states in
      let put_waits = λ (v : NodeId). waits-put d v states in
      let fixed = expand-queue d r h.fixed in
      let targets = all_targets-leaves g after d fixed in
      record {
        fixed = fixed;
        failed_over = ground (arith, put_waits id, h.failed_over);
        seen = λ v m. ground (arith, put_waits v, h.seen v, contains-insert d v visited);
        edges = λ u v e handled. elim (Bool-cases (nat_beq d u)) [
          | inl here ↦
              let same : u ≡ d = sym ((nat_beq_iff d u).0 here) in
              let leaf =
                edge-ends g.edges d v (subst (λ k. contains (pairs g) (k, v) ≡ true) same e) in
              inl (
                push_all-new (all_targets after d) stack v
                  (subst (λ ts. contains ts v ≡ true) (sym targets) leaf))
          | inr there ↦
              let old = still-Handled id d u before states there handled in
              still-edge d v visited stack r (h.edges u v e old)
        ];
        kept = λ v. elim (Bool-cases (nat_beq d v)) [
          | inl here ↦
              let same : d ≡ v = (nat_beq_iff d v).0 here in
              let waits_now = subst (λ k. waits states k ≡ true) same waiting in
              (
                λ w. absurd (cc (ap is_waiting ((h.kept v).0 w), w, waits_now)),
                λ w. inr (rw (get-put d v dependency_failed states, here) refl),
              )
          | inr there ↦ rw (get-put d v dependency_failed states, there) (h.kept v)
        ];
      }

  expand-measure :
      (d : NodeId) (visited stack : List NodeId) (r : Run V)
      → Fixed g r.queue
      → contains visited d ≡ false
      → nat_beq d id ≡ false
      → measure g id (expand d visited stack r).0 (expand d visited stack r).1
        < measure g id visited (d ∷ stack)
  unfolding expand
  expand-measure d visited stack r fixed fresh other =
      let after = set_failed d dependency_failed r in
      let targets = all_targets-leaves g after d (expand-queue d r fixed) in
      omega (
        arith,
        length-push_all (all_targets after d) stack,
        ap length targets,
        length-ends (leaves d g.edges),
        later-expand id d visited g.edges fresh other,
      )

  visit-Sound :
      (d : NodeId) (visited stack : List NodeId) (r : Run V)
      → Sound visited (d ∷ stack) r
      → Sound
          (visit d (visited, stack, r)).0
          (visit d (visited, stack, r)).1
          (visit d (visited, stack, r)).2
        × (measure g id (visit d (visited, stack, r)).0 (visit d (visited, stack, r)).1
            < measure g id visited (d ∷ stack))
  unfolding visit
  visit-Sound d visited stack r h = elim (Bool-cases (contains visited d)) [
    | inl old ↦ rw (old, visit) (again-Sound d visited stack r old h, omega arith)
    | inr fresh ↦ elim (Bool-cases (is_waiting (get d r.node_states))) [
      | inl waiting ↦
          rw (fresh, waiting, visit)
            (
              expand-Sound d visited stack r waiting h,
              expand-measure d visited stack r h.fixed fresh (not_failed d r waiting h.failed_over),
            )
      | inr over ↦
          rw (fresh, over, visit)
            (skip-Sound d visited stack r over h, omega (arith, later-visit id d visited g.edges))
    ]
  ]

  -- With fuel above the measure the stack is empty in the end.
  pub cascade-Sound :
      (fuel : ℕ) (visited stack : List NodeId) (r : Run V)
      → Sound visited stack r
      → measure g id visited stack < fuel
      → (seen : List NodeId) × Sound seen [] (cascade fuel (visited, stack, r))
  unfolding cascade
  cascade-Sound zero visited stack r h m = absurd (omega arith)
  cascade-Sound (suc fuel) visited [] r h m = (visited, h)
  cascade-Sound (suc fuel) visited (d ∷ stack) r h m =
      let next = visit-Sound d visited stack r h in
      cascade-Sound fuel _ _ _ next.0 (omega (arith, next.1))

  pub start-Sound :
      (r : Run V)
      → Fixed g r.queue
      → waits r.node_states id ≡ false
      → r.node_states ≡ before
      → Sound [] (push_all (all_targets r id) []) r
  unfolding contains
  start-Sound r fixed over same = record {
    fixed = fixed;
    failed_over = over;
    seen = λ v m. absurd (cc m);
    edges = λ u v e handled. elim handled [
      | inl u_failed ↦
          let leaf =
            edge-ends g.edges id v (subst (λ k. contains (pairs g) (k, v) ≡ true) u_failed e) in
          inl (
            push_all-new (all_targets r id) [] v
              (subst (λ ts. contains ts v ≡ true) (sym (all_targets-leaves g r id fixed)) leaf))
      | inr (waited, waits_not) ↦
          absurd (cc (ap (λ states. waits states u) same, waited, waits_not))
    ];
    kept = λ v. (λ w. ap (get v) same, λ w. inl (ap (get v) same));
  }

  pub start-measure :
      (r : Run V)
      → Fixed g r.queue
      → measure g id [] (push_all (all_targets r id) []) ≡ length g.edges
  start-measure r fixed = omega (
    arith,
    length-push_all (all_targets r id) [],
    ap length (all_targets-leaves g r id fixed),
    length-ends (leaves id g.edges),
    later-start id g.edges,
  )
