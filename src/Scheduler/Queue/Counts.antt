-- ===== src/Scheduler/Queue/Counts.antt =====
-- The counts of the work queue that every step of the scheduler keeps.
use fusion_router.Prelude.{
  ℕ, suc, ◌≤◌, ◌≡◌, refl, sym, subst, ◌∙◌, ◌⊎◌, true, false, List, [], ◌∷◌, Option, arith, nat_beq,
  nat_beq_iff, nat_eq, pair_eq, if◌then◌else◌, length, All, Bool-cases, inl, inr, Text,
}
use fusion_router.Prelude.Sets.{
  contains, insert, remove, contains-insert, contains-remove, insert-new,
}
use fusion_router.Prelude.Counting.{distinct, Subset, distinct-insert, Subset-insert}
use fusion_router.Prelude.Maps.{get, get_or, get-put}
use fusion_router.Scheduler.Graph.{NodeId, ExecutionGraph}
use fusion_router.Scheduler.Queue.{
  Pair, WorkQueue, new, satisfied_now, activate, activate_new, activate_targets,
  try_activate_downstream, mark_conditional_completed, mark_completed, activate_edge, mark_failed,
  mark_in_progress, with_max_concurrent_nodes,
}
use fusion_router.Scheduler.Queue.Build.{pairs, into, outgoing_are_edges, ready-new}
use fusion_router.Scheduler.Queue.Steps.{
  Step, configures, starts, completes, decides, fails, activates, Reach, start, next,
}

module _ (g : ExecutionGraph) (v : NodeId) where
  abbrev pub satisfied : WorkQueue → ℕ
  satisfied q = get_or v 0 q.satisfied_incoming

  abbrev pub total : WorkQueue → ℕ
  total q = get_or v 0 q.total_incoming

  pub record Inv (q : WorkQueue) : Type 0 where
    pub backs : q.back_edges ≡ (new g).back_edges
    pub outs : q.outgoing ≡ (new g).outgoing
    pub totals : q.total_incoming ≡ (new g).total_incoming
    pub counted : satisfied q ≡ length (into v q.activated_edges)
    pub once : distinct q.activated_edges ≡ true
    pub known : Subset q.activated_edges (pairs g)
    pub full : (contains q.ready v ≡ false) ⊎ (total q ≤ satisfied q)
    pub sources : All (λ p. contains q.completed p.0 ≡ true) q.activated_edges

  new-Inv : Inv (new g)
  unfolding new distinct get
  new-Inv = record {
    backs = refl;
    outs = refl;
    totals = refl;
    counted = refl;
    once = refl;
    known = tt;
    full = new-full (unfold new in refl);
    sources = tt;
  }
    where
      new-full :
          satisfied (new g) ≡ 0
          → (contains (new g).ready v ≡ false) ⊎ (total (new g) ≤ satisfied (new g))
      new-full e = elim (Bool-cases (contains (new g).ready v)) [
        | inl now ↦ inr (omega (arith, ready-new g v now))
        | inr later ↦ inl later
      ]

  satisfied-activate :
      (q : WorkQueue) (from to : NodeId)
      → satisfied (activate q from to) ≡ (if nat_beq to v then suc (satisfied q) else satisfied q)
  unfolding activate
  satisfied-activate q from to =
      ground (arith, get-put to v (satisfied_now q to) q.satisfied_incoming, nat_beq_iff to v)

  ready-activate :
      (q : WorkQueue) (from to : NodeId)
      → (contains q.ready v ≡ false) ⊎ (total q ≤ satisfied q)
      → (contains (activate q from to).ready v ≡ false)
        ⊎ (total (activate q from to) ≤ satisfied (activate q from to))
  unfolding activate
  ready-activate q from to h = ground (
    arith,
    get-put to v (satisfied_now q to) q.satisfied_incoming,
    nat_beq_iff to v,
    contains-insert to v q.ready,
  )

  activate-Inv :
      (q : WorkQueue) (from to : NodeId)
      → contains q.completed from ≡ true
      → contains (pairs g) (from, to) ≡ true
      → contains q.activated_edges (from, to) ≡ false
      → Inv q
      → Inv (activate q from to)
  unfolding activate
  activate-Inv q from to done edge fresh h =
      let added = insert-new (from, to) q.activated_edges fresh in
      record {
        backs = h.backs;
        outs = h.outs;
        totals = h.totals;
        counted = satisfied-activate q from to ∙ rw added (ground (arith, h.counted));
        once = distinct-insert (from, to) q.activated_edges h.once;
        known = Subset-insert (from, to) q.activated_edges (pairs g) edge h.known;
        full = ready-activate q from to h.full;
        sources = rw added (done, h.sources);
      }

  activate_new-Inv :
      (q : WorkQueue) (from to : NodeId)
      → contains q.completed from ≡ true
      → contains (pairs g) (from, to) ≡ true
      → Inv q
      → Inv (activate_new q from to)
  unfolding activate_new
  activate_new-Inv q from to done edge h =
      elim (Bool-cases (contains q.activated_edges (from, to))) [
        | inl old ↦ rw (old, activate_new) h
        | inr fresh ↦ rw (fresh, activate_new) (activate-Inv q from to done edge fresh h)
      ]

  activate_new-completed :
      (q : WorkQueue) (from to id : NodeId)
      → contains q.completed id ≡ true
      → contains (activate_new q from to).completed id ≡ true
  unfolding activate_new activate
  activate_new-completed q from to id h = ground arith

  activate_targets-Inv :
      (q : WorkQueue) (from : NodeId) (targets : List (NodeId × Option Text))
      → contains q.completed from ≡ true
      → All (λ t. contains (pairs g) (from, t.0) ≡ true) targets
      → Inv q
      → Inv (activate_targets q from targets)
  unfolding activate_targets
  activate_targets-Inv q from [] done edges h = h
  activate_targets-Inv q from ((to, _) ∷ targets) done edges h =
      activate_targets-Inv (activate_new q from to) from targets
        (activate_new-completed q from to from done) edges.1
        (activate_new-Inv q from to done edges.0 h)

  try_activate_downstream-Inv :
      (q : WorkQueue) (from : NodeId)
      → contains q.completed from ≡ true
      → Inv q
      → Inv (try_activate_downstream q from)
  unfolding try_activate_downstream
  try_activate_downstream-Inv q from done h =
      elim (Bool-cases (contains q.selective_sources from)) [
        | inl selective ↦ rw (selective, try_activate_downstream) h
        | inr blanket ↦
            rw (blanket, try_activate_downstream)
              (activate_targets-Inv q from (get_or from [] q.outgoing) done
                (subst (λ m. All (λ t. contains (pairs g) (from, t.0) ≡ true) (get_or from [] m))
                  (sym h.outs) (outgoing_are_edges g from))
                h)
      ]

  -- Completing a node adds it to `completed`, and taking a node off `ready` makes nothing ready.
  grows :
      (xs : List Pair) (id : NodeId) (completed : List NodeId)
      → All (λ p. contains completed p.0 ≡ true) xs
      → All (λ p. contains (insert id completed) p.0 ≡ true) xs
  grows [] id completed h = tt
  grows (p ∷ xs) id completed h =
      (ground (arith, contains-insert id p.0 completed), grows xs id completed h.1)

  ready-remove :
      (q : WorkQueue) (id : NodeId)
      → (contains q.ready v ≡ false) ⊎ (total q ≤ satisfied q)
      → (contains (remove id q.ready) v ≡ false) ⊎ (total q ≤ satisfied q)
  ready-remove q id h = ground (arith, contains-remove id v q.ready)

  mark_conditional_completed-Inv :
      (q : WorkQueue) (id : NodeId) → Inv q → Inv (mark_conditional_completed q id)
  unfolding mark_conditional_completed
  mark_conditional_completed-Inv q id h = record {
    backs = h.backs;
    outs = h.outs;
    totals = h.totals;
    counted = h.counted;
    once = h.once;
    known = h.known;
    full = ready-remove q id h.full;
    sources = grows q.activated_edges id q.completed h.sources;
  }

  -- `mark_failed` and `mark_in_progress` take a node off `ready` and leave the counts alone.
  off_ready-Inv :
      (q : WorkQueue) (id : NodeId) (in_progress failed : List NodeId)
      → Inv q
      → Inv (record q { in_progress = in_progress; failed = failed; ready = remove id q.ready })
  off_ready-Inv q id in_progress failed h = record {
    backs = h.backs;
    outs = h.outs;
    totals = h.totals;
    counted = h.counted;
    once = h.once;
    known = h.known;
    full = ready-remove q id h.full;
    sources = h.sources;
  }

  completed-mark_completed :
      (q : WorkQueue) (id : NodeId) → contains (mark_conditional_completed q id).completed id ≡ true
  unfolding mark_conditional_completed
  completed-mark_completed q id =
      ground (arith, contains-insert id id q.completed, nat_beq_iff id id)

  module _ (no_back : (u : NodeId) → contains (new g).back_edges (u, v) ≡ false) where
    activate_edge-Inv :
        (q : WorkQueue) (from to : NodeId)
        → contains q.completed from ≡ true
        → contains (pairs g) (from, to) ≡ true
        → Inv q
        → Inv (activate_edge q from to)
    unfolding activate_edge
    activate_edge-Inv q from to done edge h = elim (Bool-cases (contains q.back_edges (from, to))) [
      | inl back ↦
          let is_back : contains (new g).back_edges (from, to) ≡ true =
            subst (λ b. contains b (from, to) ≡ true) h.backs back in
          rw (back, activate_edge)
            (record {
              backs = h.backs;
              outs = h.outs;
              totals = h.totals;
              counted = h.counted;
              once = h.once;
              known = h.known;
              full = ground (
                arith,
                contains-insert to v q.ready,
                nat_beq_iff to v,
                h.full,
                no_back from,
                is_back,
              );
              sources = h.sources;
            })
      | inr plain ↦ rw (plain, activate_edge) (activate_new-Inv q from to done edge h)
    ]

    Step-Inv : {q r : WorkQueue} → Step g q r → Inv q → Inv r
    unfolding mark_completed mark_in_progress mark_failed with_max_concurrent_nodes
    Step-Inv (configures q n) h = record {
      backs = h.backs;
      outs = h.outs;
      totals = h.totals;
      counted = h.counted;
      once = h.once;
      known = h.known;
      full = h.full;
      sources = h.sources;
    }
    Step-Inv (starts q id) h = off_ready-Inv q id (insert id q.in_progress) q.failed h
    Step-Inv (completes q id) h =
        try_activate_downstream-Inv (mark_conditional_completed q id) id
          (completed-mark_completed q id) (mark_conditional_completed-Inv q id h)
    Step-Inv (decides q id) h = mark_conditional_completed-Inv q id h
    Step-Inv (fails q id) h = off_ready-Inv q id (remove id q.in_progress) (insert id q.failed) h
    Step-Inv (activates q from to done edge) h = activate_edge-Inv q from to done edge h

    pub Reach-Inv : {q : WorkQueue} → Reach g q → Inv q
    Reach-Inv start = new-Inv
    Reach-Inv (next r s) = Step-Inv s (Reach-Inv r)
