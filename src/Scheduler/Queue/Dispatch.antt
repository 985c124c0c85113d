-- ===== src/Scheduler/Queue/Dispatch.antt =====
-- What `get_ready` hands to the scheduler.
use fusion_router.Prelude.{
  ℕ, zero, suc, ◌≤◌, ◌≡◌, refl, min, Bool, true, List, [], ◌∷◌, arith, ltb, leb, ltb→lt, length,
  keep, take, All, Bool-cases, inl, inr,
}
use fusion_router.Prelude.Maps.{Map}
use fusion_router.Scheduler.Graph.{NodeId, ExecutionNode, NodeState}
use fusion_router.Scheduler.Queue.{WorkQueue}
use fusion_router.Scheduler.Queue.Select.{
  insert_by_id, sort_by_id, dispatchable, available, get_ready,
}

module _ {ℓ} (P : ExecutionNode → Type ℓ) where
  insert-All :
      (n : ExecutionNode) (nodes : List ExecutionNode)
      → P n
      → All P nodes
      → All P (insert_by_id n nodes)
  unfolding insert_by_id
  insert-All n [] p h = (p, tt)
  insert-All n (m ∷ nodes) p h = elim (Bool-cases (leb n.id m.id)) [
    | inl first ↦ rw first (p, h)
    | inr later ↦ rw later (h.0, insert-All n nodes p h.1)
  ]

  pub sort-All : (nodes : List ExecutionNode) → All P nodes → All P (sort_by_id nodes)
  unfolding sort_by_id
  sort-All [] h = tt
  sort-All (n ∷ nodes) h = insert-All n (sort_by_id nodes) h.0 (sort-All nodes h.1)

  pub take-All : (k : ℕ) (nodes : List ExecutionNode) → All P nodes → All P (take k nodes)
  take-All zero nodes h = tt
  take-All (suc k) [] h = tt
  take-All (suc k) (n ∷ nodes) h = (h.0, take-All k nodes h.1)

length-insert :
    (n : ExecutionNode) (nodes : List ExecutionNode)
    → length (insert_by_id n nodes) ≡ suc (length nodes)
unfolding insert_by_id
length-insert n [] = refl
length-insert n (m ∷ nodes) = ground (arith, length-insert n nodes)

length-sort : (nodes : List ExecutionNode) → length (sort_by_id nodes) ≡ length nodes
unfolding sort_by_id
length-sort [] = refl
length-sort (n ∷ nodes) = ground (arith, length-insert n (sort_by_id nodes), length-sort nodes)

length-take : (k : ℕ) (nodes : List ExecutionNode) → k ≤ length nodes → length (take k nodes) ≡ k
length-take zero nodes h = refl
length-take (suc k) [] h = elim h [ ]
length-take (suc k) (n ∷ nodes) h = omega (arith, length-take k nodes)

pub keep-All :
    (p : ExecutionNode → Bool) (nodes : List ExecutionNode) → All (λ n. p n ≡ true) (keep p nodes)
keep-All p [] = tt
keep-All p (n ∷ nodes) = elim (Bool-cases (p n)) [
  | inl y ↦ rw y (y, keep-All p nodes)
  | inr z ↦ rw z (keep-All p nodes)
]

-- Each node handed out is ready and neither completed, running, failed nor terminal; their number is
-- what is dispatchable, cut off at the free slots, so no slot is left empty while a node could run.
pub get_ready_lem :
    (q : WorkQueue) (states : Map NodeId NodeState)
    → All (λ n. dispatchable q states n ≡ true) (get_ready q states)
      × (length (get_ready q states)
          ≡ min (length (keep (dispatchable q states) q.graph.nodes)) (available q))
unfolding get_ready
get_ready_lem q states =
    let fit = keep (dispatchable q states) q.graph.nodes in
    let good = keep-All (dispatchable q states) q.graph.nodes in
    elim (Bool-cases (ltb (available q) (length fit))) [
      | inl many ↦
          rw (many, get_ready)
            (
              take-All _ (available q) (sort_by_id fit) (sort-All _ fit good),
              omega (
                arith,
                ltb→lt (available q) (length fit) many,
                length-sort fit,
                length-take (available q) (sort_by_id fit),
              ),
            )
      | inr few ↦ rw (few, get_ready) (good, ground arith)
    ]
