-- ===== src/Leases/Histories.antt =====
-- A rule for invariants of the lease table: what pruning, a successful grant, a successful renewal and
-- a revocation keep, every history of calls keeps.
use fusion_router.Prelude.{
  ℕ, ◌≡◌, true, List, [], ◌∷◌, none, some, Bool-cases, Option-cases, inl, inr, Text, text_eq,
  pair_eq, find,
}
use fusion_router.Prelude.Maps.{get, put}
use fusion_router.Leases.{
  ExecutionLease, LeaseManager, Call, grants, renews, renews_by, revokes, prune, held_by_other,
  new_lease, insert_lease, next_epoch, clamp_ttl, grant_lease, renewed, may_renew, renew_lease_by,
  renew_lease, revoke_lease, step, run, epoch_key,
}

abbrev pub after_renewal : LeaseManager → Text → ExecutionLease → ℕ → LeaseManager
after_renewal m key l now = record {
  leases = put key (renewed l now) m.leases;
  epochs = put (epoch_key l) (renewed l now).epoch m.epochs;
}

abbrev pub after_revocation : LeaseManager → Text → ExecutionLease → LeaseManager
after_revocation m key l = record m { leases = put key (record l { is_revoked = true }) m.leases }

module _ {ℓ} (P : LeaseManager → Type ℓ)
    (pruned : (m : LeaseManager) (now : ℕ) → P m → P (prune m now))
    (granted : (m : LeaseManager) (exec node worker : Text) (ttl now : ℕ)
      → find (held_by_other exec node worker now) (prune m now).leases ≡ none
      → P (prune m now)
      → P (
          insert_lease
            (prune m now)
            (new_lease exec node worker (clamp_ttl ttl) (next_epoch (prune m now) exec node) now)))
    (renews_lease : (m : LeaseManager) (key owner : Text) (l : ExecutionLease) (now : ℕ)
      → get key m.leases ≡ some l
      → may_renew l owner now ≡ true
      → P m
      → P (after_renewal m key l now))
    (revokes_lease : (m : LeaseManager) (key : Text) (l : ExecutionLease)
      → get key m.leases ≡ some l
      → P m
      → P (after_revocation m key l)) where
  grant_rule :
      (m : LeaseManager) (exec node worker : Text) (ttl now : ℕ)
      → P m
      → P (grant_lease m exec node worker ttl now).0
  unfolding grant_lease
  grant_rule m exec node worker ttl now h =
      elim (Option-cases (find (held_by_other exec node worker now) (prune m now).leases)) [
        | inl free ↦
            rw (free, grant_lease) (granted m exec node worker ttl now free (pruned m now h))
        | inr (entry, taken) ↦ rw (taken, grant_lease) (pruned m now h)
      ]

  renew_by_rule :
      (m : LeaseManager) (key owner : Text) (now : ℕ) → P m → P (renew_lease_by m key owner now).0
  unfolding renew_lease_by
  renew_by_rule m key owner now h = elim (Option-cases (get key m.leases)) [
    | inl missing ↦ rw (missing, renew_lease_by) h
    | inr (l, found) ↦
        rw (found, renew_lease_by)
          (elim (Bool-cases (may_renew l owner now)) [
            | inl may ↦ rw may (renews_lease m key owner l now found may h)
            | inr refused ↦ rw refused h
          ])
  ]

  renew_rule : (m : LeaseManager) (key : Text) (now : ℕ) → P m → P (renew_lease m key now).0
  unfolding renew_lease
  renew_rule m key now h = elim (Option-cases (get key m.leases)) [
    | inl missing ↦ rw (missing, renew_lease) h
    | inr (l, found) ↦ rw (found, renew_lease) (renew_by_rule m key l.owner now h)
  ]

  revoke_rule : (m : LeaseManager) (key : Text) → P m → P (revoke_lease m key).0
  unfolding revoke_lease
  revoke_rule m key h = elim (Option-cases (get key m.leases)) [
    | inl missing ↦ rw (missing, revoke_lease) h
    | inr (l, found) ↦ rw (found, revoke_lease) (revokes_lease m key l found h)
  ]

  step_rule : (m : LeaseManager) (c : ℕ × Call) → P m → P (step m c)
  unfolding step
  step_rule m (now, grants exec node worker ttl) h = grant_rule m exec node worker ttl now h
  step_rule m (now, renews key) h = renew_rule m key now h
  step_rule m (now, renews_by key owner) h = renew_by_rule m key owner now h
  step_rule m (now, revokes key) h = revoke_rule m key h

  pub run_rule : (m : LeaseManager) (calls : List (ℕ × Call)) → P m → P (run m calls)
  unfolding run
  run_rule m [] h = h
  run_rule m (c ∷ calls) h = run_rule (step m c) calls (step_rule m c h)
