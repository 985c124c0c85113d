-- ===== src/Tests/Leases.antt =====
-- Leases: the theorems at concrete histories.
use fusion_router.Prelude.{
  ℕ, ◌≡◌, ◌≢◌, refl, true, false, List, [], ◌∷◌, ◌++◌, arith, some, Text, codes, text_beq,
  text_beq_iff, text_eq,
}
use fusion_router.Prelude.Maps.{AllValues, get, put, delete}
use fusion_router.Leases.{
  ExecutionLease, LeaseManager, ok, Call, grants, new, new_lease, is_expired, grant_lease, run,
  clamp_ttl, forget_epochs, prune, insert_lease, next_epoch, format_key,
}
use fusion_router.Leases.Exclusive.{Exclusive, run-new-Exclusive}
use fusion_router.Leases.Bounds.{IsMortal, run-new-IsMortal}
use fusion_router.Leases.Epochs.{epoch_restarts, key_collision}

abbrev history : List (ℕ × Call)
history =
    (10, grants (codes "e") (codes "n") (codes "w1") 0)
    ∷ (20, grants (codes "e") (codes "n") (codes "w2") 5)
    ∷ (70_000, grants (codes "e") (codes "n") (codes "w2") 5)
    ∷ []

run-new-Exclusive_example : Exclusive (run new history)
run-new-Exclusive_example = run-new-Exclusive history

run-new-IsMortal_example : AllValues IsMortal (run new history).leases
run-new-IsMortal_example = run-new-IsMortal history

abbrev first : ExecutionLease
first = new_lease (codes "e") (codes "n") (codes "w1") 500 1 10

abbrev one_lease : LeaseManager
one_lease = record {
  leases = (format_key (codes "e") (codes "n") (codes "w1"), first) ∷ [];
  epochs = ((codes "e", codes "n"), 1) ∷ [];
}

first_granted : grant_lease new (codes "e") (codes "n") (codes "w1") 500 10 ≡ (one_lease, ok first)
unfolding grant_lease new clamp_ttl prune forget_epochs insert_lease next_epoch format_key get put
first_granted = refl

abbrev text_w1 : Text
text_w1 = codes "w1"

abbrev text_w2 : Text
text_w2 = codes "w2"

differ : (s t : Text) → text_beq s t ≡ false → s ≢ t
differ s t h e = ground (arith, text_beq_iff s t)

not_equal : text_beq text_w2 text_w1 ≡ false
unfolding text_beq
not_equal = refl

others_differ : codes "w2" ≢ codes "w1"
others_differ h = differ text_w2 text_w1 not_equal h

first_lasts : is_expired first 400 ≡ false
unfolding is_expired
first_lasts = refl

-- The old lease was renewed and carries epoch 7.
abbrev old : ExecutionLease
old = record first { epoch = 7 }

abbrev renewed_lease : LeaseManager
renewed_lease = record { leases = (codes "k", old) ∷ []; epochs = ((codes "e", codes "n"), 7) ∷ [] }

abbrev second : ExecutionLease
second = new_lease (codes "e") (codes "n") (codes "w2") 9 1 900

old_found : get (codes "k") renewed_lease.leases ≡ some old
unfolding get text_beq
old_found = refl

old_expired : is_expired old 900 ≡ true
unfolding is_expired
old_expired = refl

second_granted :
    (grant_lease renewed_lease (codes "e") (codes "n") (codes "w2") 9 900).1 ≡ ok second
unfolding grant_lease clamp_ttl prune forget_epochs is_expired insert_lease next_epoch format_key
    get put delete text_beq
second_granted = refl

epoch_restarts_example : second.epoch ≡ 1
epoch_restarts_example =
    epoch_restarts renewed_lease (codes "k") (codes "w2") 9 900 old second old_found old_expired
      second_granted

abbrev other_node : ExecutionLease
other_node = new_lease (codes "a") (codes "b:c") (codes "w") 500 1 10

abbrev replaced : LeaseManager
replaced = (grant_lease new (codes "a") (codes "b:c") (codes "w") 500 10).0

other_granted :
    grant_lease new (codes "a") (codes "b" ++ codes ":" ++ codes "c") (codes "w") 500 10
    ≡ (replaced, ok other_node)
unfolding grant_lease new clamp_ttl prune forget_epochs insert_lease next_epoch format_key get put
other_granted = refl

key_collision_example :
    get (format_key (codes "a:b") (codes "c") (codes "w")) replaced.leases ≡ some other_node
key_collision_example =
    key_collision new replaced (codes "a") (codes "b") (codes "c") (codes "w") 500 10 other_node
      other_granted
