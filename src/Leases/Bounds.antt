-- ===== src/Leases/Bounds.antt =====
-- No lease is immortal, and a granted lease keeps other workers out while it lasts.
use fusion_router.Prelude.{
  ℕ, ◌+◌, ◌*◌, ◌≤◌, ◌<◌, ◌≡◌, ◌≢◌, refl, true, false, List, [], ◌∷◌, some, arith, Bool-cases,
  Option-cases, inl, inr, Text, text_eq, pair_eq, keep, find,
}
use fusion_router.Prelude.Maps.{
  Map, get, AllValues, AllValues-keep, AllValues-put, AllValues-get, get-put,
}
use fusion_router.Leases.Histories.{run_rule}
use fusion_router.Leases.{
  ExecutionLease, LeaseManager, ok, violation, Call, is_expired, new, live, prune, held_by_other,
  new_lease, insert_lease, clamp_ttl, grant_lease, format_key, renewed, may_renew, run,
  max_lease_ttl_ms, max_lease_absolute_lifetime_ms, default_max_renewals,
}

record WellTimed (l : ExecutionLease) : Type 0 where
  ttl_positive : 0 < l.ttl_ms
  ttl_capped : l.ttl_ms ≤ max_lease_ttl_ms
  limit : l.max_renewals ≡ default_max_renewals
  renewals : l.renewal_count ≤ default_max_renewals
  lifetime : l.granted_at_ms < l.created_at_ms + max_lease_absolute_lifetime_ms

clamp_ttl_bounds : (ttl : ℕ) → (0 < clamp_ttl ttl) × (clamp_ttl ttl ≤ max_lease_ttl_ms)
unfolding clamp_ttl
clamp_ttl_bounds ttl = ground arith

abbrev Timed : LeaseManager → Type 0
Timed m = AllValues WellTimed m.leases

insert-Timed :
    (m : LeaseManager) (exec node worker : Text) (ttl epoch now : ℕ)
    → Timed m
    → Timed (insert_lease m (new_lease exec node worker (clamp_ttl ttl) epoch now))
unfolding insert_lease
insert-Timed m exec node worker ttl epoch now h =
    let bounds = clamp_ttl_bounds ttl in
    AllValues-put WellTimed _ (new_lease exec node worker (clamp_ttl ttl) epoch now) m.leases
      (record {
        ttl_positive = bounds.0;
        ttl_capped = bounds.1;
        limit = refl;
        renewals = omega arith;
        lifetime = omega arith;
      })
      h

renewed-WellTimed :
    (l : ExecutionLease) (owner : Text) (now : ℕ)
    → may_renew l owner now ≡ true
    → WellTimed l
    → WellTimed (renewed l now)
unfolding may_renew
renewed-WellTimed l owner now may w = ground arith

run-Timed : (calls : List (ℕ × Call)) → Timed (run new calls)
unfolding new
run-Timed calls =
    run_rule Timed (λ m now h. unfold prune in AllValues-keep WellTimed (live now) m.leases h)
      (λ m exec node worker ttl now free h. insert-Timed (prune m now) exec node worker ttl _ now h)
      (λ m key owner l now found may h.
        AllValues-put WellTimed key (renewed l now) m.leases
          (renewed-WellTimed l owner now may (AllValues-get WellTimed key l m.leases found h)) h)
      (λ m key l found h.
        let w = AllValues-get WellTimed key l m.leases found h in
        AllValues-put WellTimed key (record l { is_revoked = true }) m.leases
          (record {
            ttl_positive = w.ttl_positive;
            ttl_capped = w.ttl_capped;
            limit = w.limit;
            renewals = w.renewals;
            lifetime = w.lifetime;
          })
          h)
      (record { leases = []; epochs = [] }) calls tt

-- What a bounded lease is, seen from outside.
pub record IsMortal (l : ExecutionLease) : Type 0 where
  pub few_renewals : l.renewal_count ≤ default_max_renewals
  pub short_ttl : l.ttl_ms ≤ max_lease_ttl_ms
  pub ends :
      (t : ℕ) → is_expired l (l.created_at_ms + 2 * max_lease_absolute_lifetime_ms + t) ≡ true

WellTimed-IsMortal : (l : ExecutionLease) → WellTimed l → IsMortal l
unfolding is_expired
WellTimed-IsMortal l w = record {
  few_renewals = w.renewals;
  short_ttl = w.ttl_capped;
  ends = λ t. ground arith;
}

AllValues-map {ℓ κ ℓ' κ'} :
    {K : Type ℓ} {V : Type κ} (P : V → Type ℓ') (Q : V → Type κ') (m : Map K V)
    → ((v : V) → P v → Q v)
    → AllValues P m
    → AllValues Q m
AllValues-map P Q [] f h = tt
AllValues-map P Q ((k, v) ∷ m) f h = (f v h.0, AllValues-map P Q m f h.1)

-- After any history from an empty manager, every lease in the table was renewed at most 100 times,
-- has a TTL of at most a day, and is expired two days after its creation and at every later time.
pub run-new-IsMortal : (calls : List (ℕ × Call)) → AllValues IsMortal (run new calls).leases
run-new-IsMortal calls =
    AllValues-map WellTimed IsMortal (run new calls).leases WellTimed-IsMortal (run-Timed calls)

-- An entry that stays is found by the exclusivity check.
find_blocking :
    (exec node worker key : Text) (t : ℕ) (l : ExecutionLease) (m : Map Text ExecutionLease)
    → get key m ≡ some l
    → held_by_other exec node worker t (key, l) ≡ true
    → (e : Text × ExecutionLease) × (find (held_by_other exec node worker t) (keep (live t) m)
        ≡ some e)
unfolding get
find_blocking exec node worker key t l [] g h = cc
find_blocking exec node worker key t l ((k, x) ∷ m) g h =
    elim (Bool-cases (held_by_other exec node worker t (k, x))) [
      | inl blocks ↦ ((k, x), ground arith)
      | inr passes ↦
          let (e, found) =
            find_blocking exec node worker key t l m (ground (arith, text_eq.same_iff k key)) h in
          (e, ground arith)
    ]

-- A successful grant stores the lease that it returns, under the lease's key.
pub record IsGranted (m' : LeaseManager) (exec node worker : Text) (l : ExecutionLease)
    : Type 0 where
  pub stored : get (format_key exec node worker) m'.leases ≡ some l
  pub on_exec : l.execution_id ≡ exec
  pub on_node : l.node_id ≡ node
  pub by_worker : l.worker_id ≡ worker

pub grant_stores :
    (m m' : LeaseManager) (exec node worker : Text) (ttl now : ℕ) (l : ExecutionLease)
    → grant_lease m exec node worker ttl now ≡ (m', ok l)
    → IsGranted m' exec node worker l
unfolding grant_lease insert_lease
grant_stores m m' exec node worker ttl now l granted =
    let key = format_key exec node worker in
    elim (Option-cases (find (held_by_other exec node worker now) (prune m now).leases)) [
      | inl free ↦ ground (arith, get-put key key l (prune m now).leases, text_eq.same_iff key key)
      | inr (entry, taken) ↦ ground arith
    ]

find-eq-violation :
    (m : LeaseManager) (exec node worker : Text) (ttl now : ℕ) (e : Text × ExecutionLease)
    → find (held_by_other exec node worker now) (keep (live now) m.leases) ≡ some e
    → (grant_lease m exec node worker ttl now).1 ≡ violation e.1.worker_id
unfolding grant_lease prune
find-eq-violation m exec node worker ttl now e found = ground arith

-- A worker that was granted a lease keeps every other worker out, until the lease has expired.
pub grant_blocks :
    (m m' : LeaseManager) (exec node worker other : Text) (ttl ttl' now later : ℕ)
    (l : ExecutionLease)
    → grant_lease m exec node worker ttl now ≡ (m', ok l)
    → other ≢ worker
    → is_expired l later ≡ false
    → (holder : Text) × ((grant_lease m' exec node other ttl' later).1 ≡ violation holder)
grant_blocks m m' exec node worker other ttl ttl' now later l granted differs valid =
    let g = grant_stores m m' exec node worker ttl now l granted in
    let blocks : held_by_other exec node other later (format_key exec node worker, l) ≡ true =
      ground (
        arith,
        text_eq.same_iff l.execution_id exec,
        text_eq.same_iff l.node_id node,
        text_eq.same_iff l.worker_id other,
      ) in
    let (e, found) = find_blocking exec node other _ later l m'.leases g.stored blocks in
    (e.1.worker_id, find-eq-violation m' exec node other ttl' later e found)
