-- ===== src/Workflow/Structure/Accepted.antt =====
-- When `structural_checks` of crates/fusion-ir/src/validate.rs finds no issue.
use fusion_router.Prelude.{
  ℕ, ◌+◌, ◌≡◌, ◌≢◌, ◌↔◌, refl, sym, subst, ap, ◌∙◌, Bool, true, false, not, ◌&&◌, ◌||◌, List, [],
  ◌∷◌, ◌++◌, Option, none, some, arith, nat_beq, nat_beq_iff, nat_eq, length, length-keep-le,
  length-map, append-none, keep, any, all, map, Bool-cases, inl, inr,
}
use fusion_router.Prelude.Sets.{contains, insert, contains-insert}
use fusion_router.Prelude.Counting.{distinct}
use fusion_router.Prelude.Maps.{Map, get, get_or, put, get-put, increment}
use fusion_router.Workflow.{
  NodeId, WorkflowNode, WorkflowEdge, WorkflowIr, ValidationIssue, is_loop,
}
use fusion_router.Workflow.Structure.{
  check_ids, check_ends, count_incoming, roots, push_all, check_reachable, check_roots, reached,
  issues_of, structural_checks,
}
use fusion_router.Workflow.Structure.Reachable.{
  Reaches, start, push_all-contains, push_all-length, Finds, reach-Finds,
}

abbrev pub ids_of : List WorkflowNode → List NodeId
ids_of nodes = map (λ (n : WorkflowNode). n.id) nodes

-- The nodes that no edge enters, loop edges aside.
abbrev pub entries : WorkflowIr → List NodeId
entries ir =
    keep (λ id. not (any (λ (e : WorkflowEdge). not (is_loop e.kind) && nat_beq e.to id) ir.edges))
      (ids_of ir.nodes)

pub record IsWellFormed (ir : WorkflowIr) : Type 0 where
  pub once : distinct (ids_of ir.nodes) ≡ true
  pub known :
      all
        (λ (e : WorkflowEdge). contains (ids_of ir.nodes) e.from && contains (ids_of ir.nodes) e.to)
        ir.edges
      ≡ true
  pub rooted : entries ir ≢ []
  pub reached_all :
      (v : NodeId) → contains (ids_of ir.nodes) v ≡ true → Reaches (entries ir) ir.edges v

check_ids-seen :
    (nodes : List WorkflowNode) (seen : List NodeId) (v : NodeId)
    → contains (check_ids nodes seen).1 v ≡ (contains (ids_of nodes) v || contains seen v)
unfolding check_ids contains
check_ids-seen [] seen v = refl
check_ids-seen (n ∷ nodes) seen v =
    ground (arith, check_ids-seen nodes (insert n.id seen) v, contains-insert n.id v seen)

-- No issue of ids: they are new, and differ.
check_ids-none :
    (nodes : List WorkflowNode) (seen : List NodeId)
    → ((check_ids nodes seen).0 ≡ []) ↔ (
        (distinct (ids_of nodes) ≡ true)
        × ((v : NodeId) → contains (ids_of nodes) v ≡ true → contains seen v ≡ false))
unfolding check_ids distinct contains
check_ids-none [] seen = (λ _. (refl, λ v m. absurd (cc m)), λ _. refl)
check_ids-none (n ∷ nodes) seen =
    let rest = check_ids-none nodes (insert n.id seen) in
    let own = contains-insert n.id n.id seen in
    elim (Bool-cases (contains seen n.id)) [
      | inl known ↦ rw known (
        λ h. absurd (cc h),
        λ h. absurd (cc (h.1 n.id (ground (arith, nat_beq_iff n.id n.id)), known)),
      )
      | inr fresh ↦ rw fresh (
        λ h.
            let parts = rest.0 h in
            let apart = λ (v : NodeId). contains-insert n.id v seen in
            (
              ground (arith, parts.0, parts.1 n.id, own, nat_beq_iff n.id n.id),
              λ v m. elim (Bool-cases (nat_beq n.id v)) [
                | inl here ↦
                    subst (λ k. contains seen k ≡ false) ((nat_beq_iff n.id v).0 here) fresh
                | inr there ↦ ground (arith, parts.1 v, m, there, apart v)
              ],
            ),
        λ h. rest.1 (
          ground (arith, h.0),
          λ v m.
              let gone : nat_beq n.id v ≡ false = elim (Bool-cases (nat_beq n.id v)) [
                | inl here ↦
                    let twice =
                      subst (λ k. contains (ids_of nodes) k ≡ true)
                        (sym ((nat_beq_iff n.id v).0 here)) m in
                    ground (arith, h.0, twice)
                | inr there ↦ there
              ] in
              ground (arith, contains-insert n.id v seen, h.1 v, m, gone),
        ),
      )
    ]

check_ends-none :
    (seen : List NodeId) (edges : List WorkflowEdge)
    → (check_ends seen edges ≡ [])
      ↔ (all (λ (e : WorkflowEdge). contains seen e.from && contains seen e.to) edges ≡ true)
unfolding check_ends
check_ends-none seen [] = (λ _. refl, λ _. refl)
check_ends-none seen (e ∷ edges) =
    let rest = check_ends-none seen edges in
    elim (Bool-cases (contains seen e.from)) [
      | inr missing ↦ rw missing (λ h. absurd (cc h), λ h. absurd (cc h))
      | inl first ↦ elim (Bool-cases (contains seen e.to)) [
        | inr missing ↦ rw (first, missing) (λ h. absurd (cc h), λ h. absurd (cc h))
        | inl second ↦ rw (first, second) rest
      ]
    ]

count_incoming-none :
    (seen : List NodeId) (edges : List WorkflowEdge) (m : Map NodeId ℕ) (id : NodeId)
    → contains seen id ≡ true
    → nat_beq (get_or id 0 (count_incoming seen edges m)) 0 ≡ (
        nat_beq (get_or id 0 m) 0
        && not (any (λ (e : WorkflowEdge). not (is_loop e.kind) && nat_beq e.to id) edges))
unfolding count_incoming increment
count_incoming-none seen [] m id there = ground arith
count_incoming-none seen (e ∷ edges) m id there =
    elim (Bool-cases (not (is_loop e.kind) && contains seen e.to)) [
      | inl counts ↦
          let n = get_or e.to 0 m + 1 in
          let rest = count_incoming-none seen edges (put e.to n m) id there in
          rw counts (ground (arith, rest, get-put e.to id n m, counts))
      | inr skipped ↦
          let rest = count_incoming-none seen edges m id there in
          let same = λ (h : nat_beq e.to id ≡ true).
            subst (λ k. contains seen k ≡ true) (sym ((nat_beq_iff e.to id).0 h)) there in
          rw skipped (ground (arith, rest, same, skipped))
    ]

keep-same :
    (p q : NodeId → Bool) (ids : List NodeId)
    → ((id : NodeId) → contains ids id ≡ true → p id ≡ q id)
    → keep p ids ≡ keep q ids
unfolding contains
keep-same p q [] h = refl
keep-same p q (i ∷ ids) h =
    let rest = keep-same p q ids (λ id m. h id (ground (arith, m))) in
    let same : p i ≡ q i = h i (ground (arith, nat_beq_iff i i)) in
    elim (Bool-cases (q i)) [
      | inl kept ↦ rw (same ∙ kept, kept) (ap (λ xs. i ∷ xs) rest)
      | inr left ↦ rw (same ∙ left, left) rest
    ]

roots-entries :
    (ir : WorkflowIr)
    → roots ir.nodes (count_incoming (check_ids ir.nodes []).1 ir.edges []) ≡ entries ir
unfolding roots get
roots-entries ir = keep-same _ _ (ids_of ir.nodes) (λ id m.
    count_incoming-none (check_ids ir.nodes []).1 ir.edges [] id
      (check_ids-seen ir.nodes [] id ∙ rw m refl))

reached-Finds : (ir : WorkflowIr) → Finds (entries ir) ir.edges (reached ir)
unfolding reached contains
reached-Finds ir =
    let stacked = λ (v : NodeId). push_all-contains (entries ir) [] v in
    rw (reached, roots-entries ir)
      (reach-Finds (entries ir) ir.edges (length ir.nodes + length ir.edges) []
        (push_all (entries ir) [])
        (record {
          closed = λ u v m e. absurd (cc m);
          started = λ v m. ground (arith, stacked v, m);
          sound = λ v m. absurd (cc m);
          pushed = λ v m. start (ground (arith, stacked v, m));
        })
        (omega (
          arith,
          push_all-length (entries ir) [],
          length-keep-le
              (λ id.
                not (any (λ (e : WorkflowEdge). not (is_loop e.kind) && nat_beq e.to id) ir.edges))
              (ids_of ir.nodes),
          length-map (λ (n : WorkflowNode). n.id) ir.nodes,
          length-keep-le (λ (e : WorkflowEdge). not (contains [] e.from)) ir.edges,
        )))

check_reachable-none :
    (nodes : List WorkflowNode) (found : List NodeId)
    → (check_reachable nodes found ≡ [])
      ↔ ((v : NodeId) → contains (ids_of nodes) v ≡ true → contains found v ≡ true)
unfolding contains
check_reachable-none [] found = (λ _ v m. absurd (cc m), λ _. refl)
check_reachable-none (n ∷ nodes) found =
    let rest = check_reachable-none nodes found in
    elim (Bool-cases (contains found n.id)) [
      | inl there ↦ rw there (
        λ h v m. elim (Bool-cases (nat_beq n.id v)) [
          | inl here ↦ subst (λ k. contains found k ≡ true) ((nat_beq_iff n.id v).0 here) there
          | inr other ↦ rest.0 h v (ground (arith, m, other))
        ],
        λ h. rest.1 (λ v m. h v (ground (arith, m))),
      )
      | inr missing ↦ rw missing (
        λ h. absurd (cc h),
        λ h. absurd (cc (h n.id (ground (arith, nat_beq_iff n.id n.id)), missing)),
      )
    ]

check_roots-none : (ids : List NodeId) → (check_roots ids ≡ []) ↔ (ids ≢ [])
check_roots-none [] = (λ h. absurd (cc h), λ h. absurd (h refl))
check_roots-none (i ∷ ids) = (λ _ e. cc e, λ _. refl)

abbrev pub Settles : WorkflowIr → Option (List ValidationIssue) → Type 0
Settles ir none = ⊥
Settles ir (some issues) = (issues ≡ []) ↔ IsWellFormed ir

check_ids-IsWellFormed :
    (ir : WorkflowIr) (found : List NodeId)
    → Finds (entries ir) ir.edges (some found)
    → ((check_ids ir.nodes []).0
          ++ (check_ends (check_ids ir.nodes []).1 ir.edges
              ++ (check_roots (entries ir) ++ check_reachable ir.nodes found))
        ≡ [])
      ↔ IsWellFormed ir
unfolding contains
check_ids-IsWellFormed ir found finds =
    let seen = (check_ids ir.nodes []).1 in
    let same_all : all (λ (e : WorkflowEdge). contains seen e.from && contains seen e.to) ir.edges
        ≡ all
            (λ (e : WorkflowEdge).
              contains (ids_of ir.nodes) e.from && contains (ids_of ir.nodes) e.to)
            ir.edges =
      all-same seen (ids_of ir.nodes) ir.edges (λ id. check_ids-seen ir.nodes [] id) in
    let one = check_ids-none ir.nodes [] in
    let two = check_ends-none seen ir.edges in
    let three = check_roots-none (entries ir) in
    let four = check_reachable-none ir.nodes found in
    (
      λ h.
          let a = (append-none _ _).0 h in
          let b = (append-none _ _).0 a.1 in
          let c = (append-none _ _).0 b.1 in
          record {
            once = (one.0 a.0).0;
            known = sym same_all ∙ two.0 b.0;
            rooted = three.0 c.0;
            reached_all = λ v m. (finds v).0 (four.0 c.1 v m);
          },
      λ w. (append-none _ _).1 (
        one.1 (w.once, λ v m. refl),
        (append-none _ _).1 (
          two.1 (same_all ∙ w.known),
          (append-none _ _).1 (three.1 w.rooted, four.1 (λ v m. (finds v).1 (w.reached_all v m))),
        ),
      ),
    )
  where
    all-same :
        (seen ids : List NodeId) (edges : List WorkflowEdge)
        → ((id : NodeId) → contains seen id ≡ (contains ids id || false))
        → all (λ (e : WorkflowEdge). contains seen e.from && contains seen e.to) edges
          ≡ all (λ (e : WorkflowEdge). contains ids e.from && contains ids e.to) edges
    all-same seen ids [] h = refl
    all-same seen ids (e ∷ edges) h = ground (arith, h e.from, h e.to, all-same seen ids edges h)

issues_of-Settles :
    (ir : WorkflowIr) (o : Option (List NodeId))
    → Finds (entries ir) ir.edges o
    → Settles ir (issues_of ir o)
unfolding issues_of
issues_of-Settles ir none h = h
issues_of-Settles ir (some found) h =
    subst
      (λ ids.
        ((check_ids ir.nodes []).0
            ++ (check_ends (check_ids ir.nodes []).1 ir.edges
                ++ (check_roots ids ++ check_reachable ir.nodes found))
          ≡ [])
        ↔ IsWellFormed ir)
      (sym (roots-entries ir)) (check_ids-IsWellFormed ir found h)

-- The structural checks always answer, and they find nothing exactly if the ids differ, each edge
-- joins nodes, some node is entered by no edge, loop edges aside, and every node can be reached from
-- such nodes over the edges, loop edges too.
pub structural_checks_lem : (ir : WorkflowIr) → Settles ir (structural_checks ir)
unfolding structural_checks
structural_checks_lem ir = issues_of-Settles ir (reached ir) (reached-Finds ir)
