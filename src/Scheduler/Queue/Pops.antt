-- ===== src/Scheduler/Queue/Pops.antt =====
-- One pop of the search that `WorkQueue::new` makes from a loop head.
use fusion_router.Prelude.{
  ◌+◌, ◌≡◌, inl, inr, true, false, ◌||◌, nat_beq_iff, nat_eq, pair_eq, List, [], ◌∷◌, map, length,
  All, Bool-cases, Option, Text, arith,
}
use fusion_router.Prelude.Sets.{contains, insert, contains-insert, insert-new}
use fusion_router.Prelude.Counting.{distinct, Subset, distinct-insert, Subset-insert}
use fusion_router.Scheduler.Graph.{NodeId}
use fusion_router.Scheduler.Queue.{push_unseen}

abbrev pub Targets : Type 0
Targets = List (NodeId × Option Text)

abbrev pub ends : Targets → List NodeId
ends = map (λ t. t.0)

-- What one pop does to the nodes seen and to the stack.
pub push-seen :
    (ts : Targets) (seen stack : List NodeId) (w : NodeId)
    → contains (push_unseen ts seen stack).0 w ≡ (contains seen w || contains (ends ts) w)
unfolding push_unseen contains
push-seen [] seen stack w = ground arith
push-seen ((to, c) ∷ ts) seen stack w = ground (
  arith,
  push-seen ts seen stack w,
  push-seen ts (insert to seen) (to ∷ stack) w,
  contains-insert to w seen,
  nat_beq_iff to w,
)

pub push-stack :
    (ts : Targets) (seen stack : List NodeId) (w : NodeId)
    → (contains stack w ≡ true → contains (push_unseen ts seen stack).1 w ≡ true)
      × (contains (push_unseen ts seen stack).0 w ≡ true
          → contains seen w ≡ false
          → contains (push_unseen ts seen stack).1 w ≡ true)
unfolding push_unseen contains
push-stack [] seen stack w = (λ h. h, λ h k. absurd (ground arith))
push-stack ((to, c) ∷ ts) seen stack w =
    let old = push-stack ts seen stack w in
    let new = push-stack ts (insert to seen) (to ∷ stack) w in
    (
      ground (arith, old.0, new.0),
      ground (arith, old.1, new.0, new.1, contains-insert to w seen, nat_beq_iff to w),
    )

pub push-only :
    (ts : Targets) (seen stack : List NodeId) (w : NodeId)
    → contains (push_unseen ts seen stack).1 w ≡ true
    → (contains stack w || contains (push_unseen ts seen stack).0 w) ≡ true
unfolding push_unseen contains
push-only [] seen stack w h = ground arith
push-only ((to, c) ∷ ts) seen stack w h = ground (
  arith,
  push-only ts seen stack w,
  push-only ts (insert to seen) (to ∷ stack) w,
  push-seen ts (insert to seen) (to ∷ stack) w,
  contains-insert to w seen,
  nat_beq_iff to w,
)

module _ (known : List NodeId) where
  pub record Fits (seen : List NodeId) : Type 0 where
    pub once : distinct seen ≡ true
    pub within : Subset seen known

  pub push-Fits :
      (ts : Targets) (seen stack : List NodeId)
      → All (λ t. contains known t.0 ≡ true) ts
      → Fits seen
      → Fits (push_unseen ts seen stack).0
  unfolding push_unseen
  push-Fits [] seen stack h f = f
  push-Fits ((to, c) ∷ ts) seen stack h f = elim (Bool-cases (contains seen to)) [
    | inl old ↦ rw old (push-Fits ts seen stack h.1 f)
    | inr new ↦ rw new (
        push-Fits ts (insert to seen) (to ∷ stack) h.1 (record {
          once = distinct-insert to seen f.once;
          within = Subset-insert to seen known h.0 f.within;
        }))
  ]

pub push-length :
    (ts : Targets) (seen stack : List NodeId)
    → length (push_unseen ts seen stack).1 + length seen
      ≡ length stack + length (push_unseen ts seen stack).0
unfolding push_unseen
push-length [] seen stack = omega arith
push-length ((to, c) ∷ ts) seen stack = elim (Bool-cases (contains seen to)) [
  | inl old ↦ rw old (push-length ts seen stack)
  | inr new ↦
      let rest = push-length ts (to ∷ seen) (to ∷ stack) in
      rw (new, insert-new to seen new) (omega (arith, rest))
]
