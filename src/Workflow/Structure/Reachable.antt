-- ===== src/Workflow/Structure/Reachable.antt =====
-- What the search of `structural_checks` (crates/fusion-ir/src/validate.rs) reaches.
use fusion_router.Prelude.{
  ℕ, zero, suc, ◌+◌, ◌≤◌, ◌≡◌, ◌↔◌, refl, sym, subst, ap, ◌∙◌, Bool, true, false, not, ◌&&◌, ◌||◌,
  List, [], ◌∷◌, ◌++◌, Option, none, some, arith, nat_beq, nat_beq_iff, nat_eq, length,
  length-append, keep, any, if◌then◌else◌, Bool-cases, inl, inr,
}
use fusion_router.Prelude.Sets.{contains, insert, contains-insert}
use fusion_router.Prelude.Maps.{Map, get, get_or, get-put, push_at}
use fusion_router.Workflow.{NodeId, WorkflowEdge}
use fusion_router.Workflow.Structure.{adjacency, push_all, reach}

abbrev pub joined : List WorkflowEdge → NodeId → NodeId → Bool
joined edges u v = any (λ e. nat_beq e.from u && nat_beq e.to v) edges

-- The nodes that edges lead to from some of the starts.
pub data Reaches (starts : List NodeId) (edges : List WorkflowEdge) : NodeId → Type 0 where
  start : {v : NodeId} → contains starts v ≡ true → Reaches starts edges v
  follow :
      {u v : NodeId} → Reaches starts edges u → joined edges u v ≡ true → Reaches starts edges v

abbrev children : Map NodeId (List NodeId) → NodeId → List NodeId
children m u = get_or u [] m

pushed-children :
    (k x u : NodeId) (m : Map NodeId (List NodeId))
    → children (push_at k x m) u ≡ (if nat_beq k u then children m u ++ x ∷ [] else children m u)
unfolding push_at
pushed-children k x u m = ground (
  arith,
  get-put k u (get_or k [] m ++ x ∷ []) m,
  nat_beq_iff k u,
  λ (e : nat_beq k u ≡ true). ap (λ i. get_or i [] m) ((nat_beq_iff k u).0 e),
)

contains-snoc :
    (xs : List NodeId) (x v : NodeId) → contains (xs ++ x ∷ []) v ≡ (contains xs v || nat_beq x v)
unfolding contains
contains-snoc [] x v = ground arith
contains-snoc (y ∷ xs) x v = ground (arith, contains-snoc xs x v)

adjacency-joined :
    (edges : List WorkflowEdge) (m : Map NodeId (List NodeId)) (u v : NodeId)
    → contains (children (adjacency edges m) u) v ≡ (contains (children m u) v || joined edges u v)
unfolding adjacency
adjacency-joined [] m u v = ground arith
adjacency-joined (e ∷ edges) m u v =
    let rest = adjacency-joined edges (push_at e.from e.to m) u v in
    elim (Bool-cases (nat_beq e.from u)) [
      | inl here ↦
          let now : children (push_at e.from e.to m) u ≡ children m u ++ e.to ∷ [] =
            pushed-children e.from e.to u m ∙ rw here refl in
          let found = ap (λ xs. contains xs v) now ∙ contains-snoc (children m u) e.to v in
          ground (arith, rest, found, here)
      | inr there ↦
          let now : children (push_at e.from e.to m) u ≡ children m u =
            pushed-children e.from e.to u m ∙ rw there refl in
          let found = ap (λ xs. contains xs v) now in ground (arith, rest, found, there)
    ]

-- The edges that leave a node, and those that leave a node not reached yet.
abbrev leaving : List WorkflowEdge → NodeId → ℕ
leaving edges u = length (keep (λ (e : WorkflowEdge). nat_beq e.from u) edges)

abbrev pub waiting : List WorkflowEdge → List NodeId → ℕ
waiting edges reachable =
    length (keep (λ (e : WorkflowEdge). not (contains reachable e.from)) edges)

adjacency-leaving :
    (edges : List WorkflowEdge) (m : Map NodeId (List NodeId)) (u : NodeId)
    → length (children (adjacency edges m) u) ≡ length (children m u) + leaving edges u
unfolding adjacency
adjacency-leaving [] m u = omega arith
adjacency-leaving (e ∷ edges) m u =
    let rest = adjacency-leaving edges (push_at e.from e.to m) u in
    elim (Bool-cases (nat_beq e.from u)) [
      | inl here ↦
          let now : children (push_at e.from e.to m) u ≡ children m u ++ e.to ∷ [] =
            pushed-children e.from e.to u m ∙ rw here refl in
          let longer = ap length now ∙ length-append (children m u) (e.to ∷ []) in
          rw here (omega (arith, rest, longer))
      | inr there ↦
          let now : children (push_at e.from e.to m) u ≡ children m u =
            pushed-children e.from e.to u m ∙ rw there refl in
          rw there (omega (arith, rest, ap length now))
    ]

waiting-insert :
    (edges : List WorkflowEdge) (cur : NodeId) (reachable : List NodeId)
    → contains reachable cur ≡ false
    → waiting edges (insert cur reachable) + leaving edges cur ≡ waiting edges reachable
waiting-insert [] cur reachable fresh = refl
waiting-insert (e ∷ edges) cur reachable fresh =
    let rest = waiting-insert edges cur reachable fresh in
    let one = contains-insert cur e.from reachable in
    elim (Bool-cases (nat_beq e.from cur)) [
      | inl here ↦
          let same : e.from ≡ cur = (nat_beq_iff e.from cur).0 here in
          let was : contains reachable e.from ≡ false = ap (contains reachable) same ∙ fresh in
          let now : contains (insert cur reachable) e.from ≡ true =
            ground (arith, one, nat_beq_iff cur e.from, same) in
          rw (here, was, now) (omega (arith, rest))
      | inr there ↦
          let now : contains (insert cur reachable) e.from ≡ contains reachable e.from =
            ground (arith, one, nat_beq_iff cur e.from, nat_beq_iff e.from cur, there) in
          rw (there, now) (ground (arith, rest))
    ]

pub push_all-contains :
    (ids stack : List NodeId) (v : NodeId)
    → contains (push_all ids stack) v ≡ (contains ids v || contains stack v)
unfolding contains
push_all-contains [] stack v = refl
push_all-contains (i ∷ ids) stack v = ground (arith, push_all-contains ids (i ∷ stack) v)

pub push_all-length :
    (ids stack : List NodeId) → length (push_all ids stack) ≡ length ids + length stack
push_all-length [] stack = omega arith
push_all-length (i ∷ ids) stack = omega (arith, push_all-length ids (i ∷ stack))

module _ (starts : List NodeId) (edges : List WorkflowEdge) where
  -- What is reached leads to what is reached or waits on the stack, and only there.
  pub record IsSearch (reachable stack : List NodeId) : Type 0 where
    pub closed :
        (u v : NodeId)
        → contains reachable u ≡ true
        → joined edges u v ≡ true
        → (contains reachable v || contains stack v) ≡ true
    pub started :
        (v : NodeId) → contains starts v ≡ true → (contains reachable v || contains stack v) ≡ true
    pub sound : (v : NodeId) → contains reachable v ≡ true → Reaches starts edges v
    pub pushed : (v : NodeId) → contains stack v ≡ true → Reaches starts edges v

  abbrev pub Finds : Option (List NodeId) → Type 0
  Finds none = ⊥
  Finds (some found) = (v : NodeId) → (contains found v ≡ true) ↔ Reaches starts edges v

  complete :
      (reachable : List NodeId) (v : NodeId)
      → IsSearch reachable []
      → Reaches starts edges v
      → contains reachable v ≡ true
  unfolding contains
  complete reachable v h (start m) = ground (arith, h.started v m)
  complete reachable v h (follow {u} r e) =
      ground (arith, h.closed u v (complete reachable u h r) e)

  skip-IsSearch :
      (cur : NodeId) (reachable stack : List NodeId)
      → contains reachable cur ≡ true
      → IsSearch reachable (cur ∷ stack)
      → IsSearch reachable stack
  unfolding contains
  skip-IsSearch cur reachable stack there h =
      let at = λ (v : NodeId) (e : nat_beq cur v ≡ true).
        subst (λ k. contains reachable k ≡ true) ((nat_beq_iff cur v).0 e) there in
      record {
        closed = λ u v m e. ground (arith, h.closed u v m e, at v);
        started = λ v m. ground (arith, h.started v m, at v);
        sound = h.sound;
        pushed = λ v m. h.pushed v (ground (arith, m));
      }

  take-IsSearch :
      (cur : NodeId) (reachable stack : List NodeId)
      → IsSearch reachable (cur ∷ stack)
      → IsSearch (insert cur reachable) (push_all (children (adjacency edges []) cur) stack)
  unfolding contains get
  take-IsSearch cur reachable stack h =
      let ids = children (adjacency edges []) cur in
      let found = λ (v : NodeId). contains-insert cur v reachable in
      let stacked = λ (v : NodeId). push_all-contains ids stack v in
      let child = λ (v : NodeId). adjacency-joined edges [] cur v in
      let own = h.pushed cur (ground (arith, nat_beq_iff cur cur)) in
      record {
        closed = λ u v m e. elim (Bool-cases (nat_beq cur u)) [
          | inl here ↦
              let from_cur : joined edges cur v ≡ true =
                subst (λ k. joined edges k v ≡ true) (sym ((nat_beq_iff cur u).0 here)) e in
              ground (arith, from_cur, child v, stacked v)
          | inr there ↦
              let before : contains reachable u ≡ true = ground (arith, m, found u, there) in
              ground (arith, h.closed u v before e, found v, stacked v)
        ];
        started = λ v m. ground (arith, h.started v m, found v, stacked v);
        sound = λ v m. elim (Bool-cases (nat_beq cur v)) [
          | inl here ↦ subst (Reaches starts edges) ((nat_beq_iff cur v).0 here) own
          | inr there ↦ h.sound v (ground (arith, m, found v, there))
        ];
        pushed = λ v m. elim (Bool-cases (contains ids v)) [
          | inl new_one ↦ follow own (ground (arith, child v, new_one))
          | inr old ↦ h.pushed v (ground (arith, m, stacked v, old))
        ];
      }

  pub reach-Finds :
      (fuel : ℕ) (reachable stack : List NodeId)
      → IsSearch reachable stack
      → length stack + waiting edges reachable ≤ fuel
      → Finds (reach (adjacency edges []) fuel reachable stack)
  unfolding reach get
  reach-Finds fuel reachable [] h enough = λ v. (h.sound v, complete reachable v h)
  reach-Finds zero reachable (cur ∷ stack) h enough = absurd (omega (arith, enough))
  reach-Finds (suc fuel) reachable (cur ∷ stack) h enough =
      elim (Bool-cases (contains reachable cur)) [
        | inl there ↦
            rw (there, reach)
              (reach-Finds fuel reachable stack (skip-IsSearch cur reachable stack there h)
                (omega (arith, enough)))
        | inr fresh ↦
            let ids = children (adjacency edges []) cur in
            rw (fresh, reach)
              (reach-Finds fuel (insert cur reachable) (push_all ids stack)
                (take-IsSearch cur reachable stack h)
                (omega (
                  arith,
                  enough,
                  waiting-insert edges cur reachable fresh,
                  push_all-length ids stack,
                  adjacency-leaving edges [] cur,
                )))
      ]
