-- ===== src/Leases/Exclusive.antt =====
-- Invariant 12: one worker for each node, whatever is called and whatever the clock shows.
use fusion_router.Prelude.{
  ℕ, ◌≡◌, refl, subst, ◌∙◌, Bool, false, not, ◌&&◌, List, [], ◌∷◌, none, some, arith, ◌==◌,
  Bool-cases, inl, inr, Text, text_eq, pair_eq, keep, find,
}
use fusion_router.Prelude.Maps.{
  Map, get, put, AllValues, AllValues-keep, AllValues-put, AllValues-get,
}
use fusion_router.Leases.Histories.{after_renewal, run_rule}
use fusion_router.Leases.{
  ExecutionLease, LeaseManager, Call, is_expired, new, live, prune, held_by_other, new_lease,
  insert_lease, run,
}

-- A lease on a node that somebody else than the worker holds.
abbrev pub others : Text → Text → Text → ExecutionLease → Bool
others exec node worker l =
    l.execution_id == exec && (l.node_id == node && not (l.worker_id == worker))

abbrev pub HeldBy : Text → Text → Text → ExecutionLease → Type 0
HeldBy exec node worker l = others exec node worker l ≡ false

-- Each node has a worker that holds every lease on it in the table.
abbrev pub Exclusive : LeaseManager → Type 0
Exclusive m = (exec node : Text) → (worker : Text) × AllValues (HeldBy exec node worker) m.leases

new-Exclusive : Exclusive new
unfolding new
new-Exclusive exec node = (exec, tt)

prune-Exclusive : (m : LeaseManager) (now : ℕ) → Exclusive m → Exclusive (prune m now)
unfolding prune
prune-Exclusive m now h exec node =
    let (worker, held) = h exec node in (worker, AllValues-keep _ (live now) m.leases held)

-- After pruning, if nobody else is found on the node then every lease on it is the worker's.
free_node :
    (exec node worker : Text) (now : ℕ) (m : Map Text ExecutionLease)
    → find (held_by_other exec node worker now) (keep (live now) m) ≡ none
    → AllValues (HeldBy exec node worker) (keep (live now) m)
free_node exec node worker now [] h = tt
free_node exec node worker now ((k, l) ∷ m) h = elim (Bool-cases (is_expired l now)) [
  | inl gone ↦ rw gone (free_node exec node worker now m (rw gone at h))
  | inr valid ↦
      let found = rw valid at h in
      rw valid (ground arith, free_node exec node worker now m (ground arith))
]

free_pruned :
    (m : LeaseManager) (exec node worker : Text) (now : ℕ)
    → find (held_by_other exec node worker now) (prune m now).leases ≡ none
    → AllValues (HeldBy exec node worker) (prune m now).leases
unfolding prune
free_pruned m exec node worker now h = free_node exec node worker now m.leases h

granted-Exclusive :
    (m : LeaseManager) (exec node worker : Text) (ttl epoch now : ℕ)
    → AllValues (HeldBy exec node worker) m.leases
    → Exclusive m
    → Exclusive (insert_lease m (new_lease exec node worker ttl epoch now))
unfolding insert_lease
granted-Exclusive m exec node worker ttl epoch now free h e n =
    let l = new_lease exec node worker ttl epoch now in
    elim (Bool-cases (exec == e && node == n)) [
      | inl same ↦
          let ex : exec ≡ e = (text_eq.same_iff exec e).0 (ground arith) in
          let no : node ≡ n = (text_eq.same_iff node n).0 (ground arith) in
          let mine : HeldBy e n worker l = ground (arith, text_eq.same_iff worker worker) in
          (
            worker,
            AllValues-put (HeldBy e n worker) l.lease_key l m.leases mine (
                subst (λ x. AllValues (HeldBy x n worker) m.leases) ex
                  (subst (λ x. AllValues (HeldBy exec x worker) m.leases) no free)),
          )
      | inr other ↦
          let (holder, held) = h e n in
          (holder, AllValues-put (HeldBy e n holder) l.lease_key l m.leases (ground arith) held)
    ]

-- An update that keeps the holder keeps the table exclusive.
update-Exclusive :
    (m : LeaseManager) (key : Text) (l l' : ExecutionLease) (epochs : Map (Text × Text) ℕ)
    → get key m.leases ≡ some l
    → ((exec node worker : Text) → others exec node worker l' ≡ others exec node worker l)
    → Exclusive m
    → Exclusive (record { leases = put key l' m.leases; epochs = epochs })
update-Exclusive m key l l' epochs found same h exec node =
    let (worker, held) = h exec node in
    (
      worker,
      AllValues-put _ key l' m.leases
          (same exec node worker
            ∙ AllValues-get (HeldBy exec node worker) key l m.leases found held)
          held,
    )

-- After any history of calls from an empty manager, with any clock readings, all leases in the table
-- on one node belong to one worker.
pub run-new-Exclusive : (calls : List (ℕ × Call)) → Exclusive (run new calls)
run-new-Exclusive calls =
    run_rule Exclusive prune-Exclusive
      (λ m exec node worker ttl now free h.
        granted-Exclusive (prune m now) exec node worker _ _ now
          (free_pruned m exec node worker now free) h)
      (λ m key owner l now found may.
        update-Exclusive m key l _ (after_renewal m key l now).epochs found (λ _ _ _. refl))
      (λ m key l found. update-Exclusive m key l _ m.epochs found (λ _ _ _. refl)) new calls
      new-Exclusive
