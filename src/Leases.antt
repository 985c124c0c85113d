-- ===== src/Leases.antt =====
-- Execution leases: crates/fusion-scheduler/src/leases.rs. The clock is an argument of each call, and
-- no order of the clock's values is assumed.
pub mod Histories
pub mod Bounds
pub mod Exclusive
pub mod Epochs
use fusion_router.Prelude.{
  ℕ, zero, suc, ◌+◌, ◌-◌, ◌≡◌, Bool, true, false, not, ◌&&◌, ◌||◌, List, [], ◌∷◌, ◌++◌, Option,
  none, some, min, max, ltb, leb, nat_beq, ◌==◌, if◌then◌else◌, Text, codes, text_eq, pair_eq, keep,
  find,
}
use fusion_router.Prelude.Words.{saturating_add, saturating_sub, wrapping_add}
use fusion_router.Prelude.Maps.{Map, get, put, delete, get_or}

abbrev pub default_max_renewals : ℕ
default_max_renewals = 100

abbrev pub max_lease_absolute_lifetime_ms : ℕ
max_lease_absolute_lifetime_ms = 86_400_000

abbrev pub max_lease_ttl_ms : ℕ
max_lease_ttl_ms = max_lease_absolute_lifetime_ms

abbrev pub min_lease_ttl_ms : ℕ
min_lease_ttl_ms = 1

abbrev pub default_lease_ttl_ms : ℕ
default_lease_ttl_ms = 60_000

pub record ExecutionLease : Type 0 where
  pub lease_key : Text
  pub execution_id : Text
  pub node_id : Text
  pub worker_id : Text
  pub epoch : ℕ
  pub granted_at_ms : ℕ
  pub ttl_ms : ℕ
  pub is_revoked : Bool
  pub owner : Text
  pub created_at_ms : ℕ
  pub renewal_count : ℕ
  pub max_renewals : ℕ

unfoldable pub is_expired : ExecutionLease → ℕ → Bool
is_expired l now =
    l.is_revoked || (ltb 0 l.ttl_ms && leb (saturating_add l.granted_at_ms l.ttl_ms) now)

pub record LeaseManager : Type 0 where
  pub leases : Map Text ExecutionLease
  pub epochs : Map (Text × Text) ℕ

unfoldable pub new : LeaseManager
new = record { leases = []; epochs = [] }

-- `ERR_LEASE_VIOLATION` names the worker that holds the node.
pub data Granted : Type 0 where
  ok : ExecutionLease → Granted
  violation : Text → Granted

unfoldable pub clamp_ttl : ℕ → ℕ
clamp_ttl ttl =
    if nat_beq ttl 0 then default_lease_ttl_ms else min (max ttl min_lease_ttl_ms) max_lease_ttl_ms

-- The entry's key is not read: `retain` and `values` look at the lease.
abbrev pub live : ℕ → Text × ExecutionLease → Bool
live now entry = not (is_expired entry.1 now)

abbrev pub epoch_key : ExecutionLease → Text × Text
epoch_key l = (l.execution_id, l.node_id)

unfoldable pub forget_epochs :
    ℕ → Map Text ExecutionLease → Map (Text × Text) ℕ → Map (Text × Text) ℕ
forget_epochs now [] epochs = epochs
forget_epochs now ((k, l) ∷ entries) epochs =
    forget_epochs now entries (if is_expired l now then delete (epoch_key l) epochs else epochs)

unfoldable pub prune : LeaseManager → ℕ → LeaseManager
prune m now = record {
  leases = keep (live now) m.leases;
  epochs = forget_epochs now m.leases m.epochs;
}

-- An active lease on the node that another worker holds.
abbrev pub held_by_other : Text → Text → Text → ℕ → Text × ExecutionLease → Bool
held_by_other exec node worker now entry =
    entry.1.execution_id == exec
    && (entry.1.node_id == node
        && (not (is_expired entry.1 now) && not (entry.1.worker_id == worker)))

unfoldable pub format_key : Text → Text → Text → Text
format_key exec node worker = codes "lease:" ++ exec ++ codes ":" ++ node ++ codes ":" ++ worker

abbrev pub new_lease : Text → Text → Text → ℕ → ℕ → ℕ → ExecutionLease
new_lease exec node worker ttl epoch now = record {
  lease_key = format_key exec node worker;
  execution_id = exec;
  node_id = node;
  worker_id = worker;
  epoch = epoch;
  granted_at_ms = now;
  ttl_ms = ttl;
  is_revoked = false;
  owner = worker;
  created_at_ms = now;
  renewal_count = 0;
  max_renewals = default_max_renewals;
}

unfoldable pub insert_lease : LeaseManager → ExecutionLease → LeaseManager
insert_lease m l = record {
  leases = put l.lease_key l m.leases;
  epochs = put (epoch_key l) l.epoch m.epochs;
}

unfoldable pub next_epoch : LeaseManager → Text → Text → ℕ
next_epoch m exec node = wrapping_add (get_or (exec, node) 0 m.epochs) 1

unfoldable pub grant_lease : LeaseManager → Text → Text → Text → ℕ → ℕ → LeaseManager × Granted
grant_lease m exec node worker ttl now =
    let pruned = prune m now in
    elim (find (held_by_other exec node worker now) pruned.leases) [
      | some entry ↦ (pruned, violation entry.1.worker_id)
      | none ↦
          let lease =
            new_lease exec node worker (clamp_ttl ttl) (next_epoch pruned exec node) now in
          (insert_lease pruned lease, ok lease)
    ]

abbrev pub renewed : ExecutionLease → ℕ → ExecutionLease
renewed l now = record l {
  renewal_count = l.renewal_count + 1;
  epoch = wrapping_add l.epoch 1;
  granted_at_ms = now;
}

unfoldable pub may_renew : ExecutionLease → Text → ℕ → Bool
may_renew l owner now =
    l.owner == owner
    && (not (is_expired l now)
        && (ltb l.renewal_count l.max_renewals
            && ltb (saturating_sub now l.created_at_ms) max_lease_absolute_lifetime_ms))

unfoldable pub renew_lease_by : LeaseManager → Text → Text → ℕ → LeaseManager × Bool
renew_lease_by m key owner now = elim (get key m.leases) [
  | none ↦ (m, false)
  | some l ↦
      if may_renew l owner now
      then (
        record {
          leases = put key (renewed l now) m.leases;
          epochs = put (epoch_key l) (renewed l now).epoch m.epochs;
        },
        true,
      )
      else (m, false)
]

unfoldable pub renew_lease : LeaseManager → Text → ℕ → LeaseManager × Bool
renew_lease m key now = elim (get key m.leases) [
  | none ↦ (m, false)
  | some l ↦ renew_lease_by m key l.owner now
]

unfoldable pub revoke_lease : LeaseManager → Text → LeaseManager × Bool
revoke_lease m key = elim (get key m.leases) [
  | none ↦ (m, false)
  | some l ↦ (record m { leases = put key (record l { is_revoked = true }) m.leases }, true)
]

-- Calls, each at the time that its clock shows.
pub data Call : Type 0 where
  grants : Text → Text → Text → ℕ → Call
  renews : Text → Call
  renews_by : Text → Text → Call
  revokes : Text → Call

unfoldable pub step : LeaseManager → ℕ × Call → LeaseManager
step m (now, grants exec node worker ttl) = (grant_lease m exec node worker ttl now).0
step m (now, renews key) = (renew_lease m key now).0
step m (now, renews_by key owner) = (renew_lease_by m key owner now).0
step m (now, revokes key) = (revoke_lease m key).0

unfoldable pub run : LeaseManager → List (ℕ × Call) → LeaseManager
run m [] = m
run m (c ∷ calls) = run (step m c) calls
