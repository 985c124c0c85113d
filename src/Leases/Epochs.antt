-- ===== src/Leases/Epochs.antt =====
-- The epochs that leases carry, and the keys under which they are stored.
use fusion_router.Prelude.{
  ℕ, ◌≡◌, refl, ap, ◌∙◌, true, [], ◌∷◌, ◌++◌, append_assoc, none, some, arith, ◌==◌, Bool-cases,
  inl, inr, Text, codes, text_eq, pair_eq,
}
use fusion_router.Prelude.Maps.{Map, get, delete, get-delete}
use fusion_router.Leases.Bounds.{grant_stores}
use fusion_router.Leases.{
  ExecutionLease, LeaseManager, ok, is_expired, prune, epoch_key, forget_epochs, next_epoch,
  grant_lease, format_key,
}

forgotten :
    (now : ℕ) (k : Text × Text) (entries : Map Text ExecutionLease) (epochs : Map (Text × Text) ℕ)
    → get k epochs ≡ none
    → get k (forget_epochs now entries epochs) ≡ none
unfolding forget_epochs
forgotten now k [] epochs h = h
forgotten now k ((j, l) ∷ entries) epochs h = elim (Bool-cases (is_expired l now)) [
  | inl gone ↦ rw gone (
      forgotten now k entries (delete (epoch_key l) epochs)
        (ground (arith, get-delete (epoch_key l) k epochs)))
  | inr valid ↦ rw valid (forgotten now k entries epochs h)
]

expired_forgets :
    (now : ℕ) (key : Text) (old : ExecutionLease) (entries : Map Text ExecutionLease)
    (epochs : Map (Text × Text) ℕ)
    → get key entries ≡ some old
    → is_expired old now ≡ true
    → get (epoch_key old) (forget_epochs now entries epochs) ≡ none
unfolding get forget_epochs
expired_forgets now key old [] epochs found gone = cc
expired_forgets now key old ((j, l) ∷ entries) epochs found gone = elim (Bool-cases (j == key)) [
  | inl hit ↦
      let same : l ≡ old = ground arith in
      rw (same, gone)
        (forgotten now (epoch_key old) entries (delete (epoch_key old) epochs) (
          get-delete (epoch_key old) (epoch_key old) epochs
          ∙ rw ((pair_eq.same_iff (epoch_key old) (epoch_key old)).1 refl)))
  | inr miss ↦ expired_forgets now key old entries _ (ground arith) gone
]

-- When a grant finds an expired or revoked lease on its node in the table, the new lease starts
-- again at epoch 1, whatever epoch the old lease had reached.
pub epoch_restarts :
    (m : LeaseManager) (key worker : Text) (ttl now : ℕ) (old l : ExecutionLease)
    → get key m.leases ≡ some old
    → is_expired old now ≡ true
    → (grant_lease m old.execution_id old.node_id worker ttl now).1 ≡ ok l
    → l.epoch ≡ 1
unfolding grant_lease prune next_epoch
epoch_restarts m key worker ttl now old l found gone granted =
    let none_left = expired_forgets now key old m.leases m.epochs found gone in ground arith

format_key_collides :
    (a b c worker : Text)
    → format_key (a ++ codes ":" ++ b) c worker ≡ format_key a (b ++ codes ":" ++ c) worker
unfolding format_key
format_key_collides a b c worker = simp append_assoc

-- The key of a lease does not determine its node: a grant to a worker of node `b:c` of execution `a`
-- takes the place of whatever lease the table held for the worker on node `c` of execution `a:b`.
pub key_collision :
    (m m' : LeaseManager) (a b c worker : Text) (ttl now : ℕ) (l : ExecutionLease)
    → grant_lease m a (b ++ codes ":" ++ c) worker ttl now ≡ (m', ok l)
    → get (format_key (a ++ codes ":" ++ b) c worker) m'.leases ≡ some l
key_collision m m' a b c worker ttl now l granted =
    ap (λ k. get k m'.leases) (format_key_collides a b c worker)
    ∙ (grant_stores m m' a _ worker ttl now l granted).stored
