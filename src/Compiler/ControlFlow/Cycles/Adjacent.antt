-- ===== src/Compiler/ControlFlow/Cycles/Adjacent.antt =====
-- The adjacency lists of `three_color_cycle_detect` (crates/fusion-compiler/src/lib.rs): they hold the
-- edges, and both ends of an edge are keys.
use fusion_router.Prelude.{
  ◌≡◌, subst, ap, true, ◌||◌, ◌&&◌, List, [], ◌∷◌, ◌++◌, some, arith, nat_beq, nat_beq_iff, nat_eq,
  pair_eq, map, Bool-cases, Option-cases, inl, inr,
}
use fusion_router.Prelude.Sets.{contains}
use fusion_router.Prelude.Maps.{get, get_or, put, get-put, push_at, touch}
use fusion_router.Compiler.Ir.{NodeId}
use fusion_router.Compiler.ControlFlow.Cycles.{Adjacency, adjacency}
use fusion_router.Compiler.ControlFlow.Cycles.Trails.{children, leads}

contains-snoc :
    (xs : List NodeId) (x v : NodeId) → contains (xs ++ x ∷ []) v ≡ (contains xs v || nat_beq x v)
unfolding contains
contains-snoc [] x v = ground arith
contains-snoc (y ∷ xs) x v = ground (arith, contains-snoc xs x v)

push-leads :
    (k x u v : NodeId) (m : Adjacency)
    → leads (push_at k x m) u v ≡ (leads m u v || (nat_beq k u && nat_beq x v))
unfolding push_at
push-leads k x u v m = elim (Bool-cases (nat_beq k u)) [
  | inl here ↦
      let same : k ≡ u = (nat_beq_iff k u).0 here in
      let put_here : children (push_at k x m) u ≡ children m u ++ x ∷ [] =
        ground (arith, get-put k u (get_or k [] m ++ x ∷ []) m, ap (λ i. get_or i [] m) same) in
      rw (put_here, here) (contains-snoc (children m u) x v)
  | inr there ↦
      let put_there : children (push_at k x m) u ≡ children m u =
        ground (arith, get-put k u (get_or k [] m ++ x ∷ []) m) in
      rw (put_there, there) (ground arith)
]

pub touch-children : (k u : NodeId) (m : Adjacency) → children (touch k [] m) u ≡ children m u
unfolding touch
touch-children k u m = ground (arith, get-put k u [] m, nat_beq_iff k u)

pub adjacency-leads :
    (edges : List (NodeId × NodeId)) (m : Adjacency) (u v : NodeId)
    → leads (adjacency edges m) u v ≡ (leads m u v || contains edges (u, v))
unfolding adjacency contains
adjacency-leads [] m u v = ground arith
adjacency-leads ((from, to) ∷ edges) m u v =
    let pushed = push_at from to m in
    ground (
      arith,
      adjacency-leads edges (touch to [] pushed) u v,
      ap (λ xs. contains xs v) (touch-children to u pushed),
      push-leads from to u v m,
    )

-- Keys.
abbrev pub IsKey : Adjacency → NodeId → Type 0
IsKey m v = (cs : List NodeId) × (get v m ≡ some cs)

abbrev pub IsClosed : Adjacency → Type 0
IsClosed m = (u v : NodeId) → leads m u v ≡ true → IsKey m v

put-IsKey : (k v : NodeId) (cs : List NodeId) (m : Adjacency) → IsKey m v → IsKey (put k cs m) v
put-IsKey k v cs m (ds, e) = elim (Bool-cases (nat_beq k v)) [
  | inl here ↦ (cs, ground (arith, get-put k v cs m))
  | inr there ↦ (ds, ground (arith, get-put k v cs m))
]

pub touch-IsKey : (k v : NodeId) (m : Adjacency) → IsKey m v → IsKey (touch k [] m) v
unfolding touch
touch-IsKey k v m h = elim (Option-cases (get k m)) [
  | inl absent ↦ rw (absent, touch) (put-IsKey k v [] m h)
  | inr (cs, there) ↦ rw (there, touch) h
]

pub touched-IsKey : (k : NodeId) (m : Adjacency) → IsKey (touch k [] m) k
unfolding touch
touched-IsKey k m = elim (Option-cases (get k m)) [
  | inl absent ↦ rw (absent, touch) ([], ground (arith, get-put k k [] m, nat_beq_iff k k))
  | inr (cs, there) ↦ rw (there, touch) (cs, there)
]

added-IsClosed :
    (from to : NodeId) (m : Adjacency) → IsClosed m → IsClosed (touch to [] (push_at from to m))
unfolding push_at
added-IsClosed from to m h u v e =
    let pushed = push_at from to m in
    let old = ap (λ xs. contains xs v) (touch-children to u pushed) in
    elim (Bool-cases (nat_beq to v)) [
      | inl here ↦
          subst (IsKey (touch to [] pushed)) ((nat_beq_iff to v).0 here) (touched-IsKey to pushed)
      | inr there ↦
          touch-IsKey to v pushed
            (put-IsKey from v _ m (h u v (ground (arith, push-leads from to u v m, old))))
    ]

pub adjacency-IsClosed :
    (edges : List (NodeId × NodeId)) (m : Adjacency) → IsClosed m → IsClosed (adjacency edges m)
unfolding adjacency
adjacency-IsClosed [] m h = h
adjacency-IsClosed ((from, to) ∷ edges) m h =
    adjacency-IsClosed edges (touch to [] (push_at from to m)) (added-IsClosed from to m h)

-- A node with a child is a key, and a key is one of the entries.
abbrev pub keys : Adjacency → List NodeId
keys m = map (λ p. p.0) m

pub leads-keys : (m : Adjacency) (u v : NodeId) → leads m u v ≡ true → contains (keys m) u ≡ true
unfolding contains get
leads-keys [] u v e = absurd (cc e)
leads-keys ((j, cs) ∷ m) u v e = elim (Bool-cases (nat_beq j u)) [
  | inl here ↦ ground arith
  | inr there ↦
      let same : children ((j, cs) ∷ m) u ≡ children m u = ground arith in
      ground (arith, leads-keys m u v (subst (λ xs. contains xs v ≡ true) same e))
]

pub keys-IsKey : (m : Adjacency) (v : NodeId) → contains (keys m) v ≡ true → IsKey m v
unfolding contains get
keys-IsKey [] v h = absurd (cc h)
keys-IsKey ((j, cs) ∷ m) v h = elim (Bool-cases (nat_beq j v)) [
  | inl here ↦ (cs, ground arith)
  | inr there ↦ let (ds, e) = keys-IsKey m v (ground arith) in (ds, ground arith)
]
