-- ===== src/Json.antt =====
-- JSON values, as serde_json holds them. An object lists its members in the
-- order of a `BTreeMap`, which serde_json's objects are.
use fusion_router.Prelude.{
  ℕ, ◌≡◌, refl, Bool, true, false, not, ◌&&◌, ◌||◌, [], ◌∷◌, Option, none, some, arith, nat_beq,
  ltb, Text, text_beq_iff, text_eq, ◌==◌, if◌then◌else◌,
}

-- A number is an i64 or u64 that is not negative, one that is, or a float, told by its bits.
pub data Number : Type 0 where
  pos_int neg_int float : ℕ → Number

mutual
  pub data Json : Type 0 where
    null : Json
    boolean : Bool → Json
    number : Number → Json
    text : Text → Json
    array : Elements → Json
    object : Members → Json

  pub data Elements : Type 0 where
    nil : Elements
    element : Json → Elements → Elements

  pub data Members : Type 0 where
    end : Members
    member : Text → Json → Members → Members

unfoldable pub text_ltb : Text → Text → Bool
text_ltb [] [] = false
text_ltb [] (_ ∷ _) = true
text_ltb (_ ∷ _) [] = false
text_ltb (c ∷ s) (d ∷ t) = ltb c d || (nat_beq c d && text_ltb s t)

unfoldable pub get : Text → Members → Option Json
get k end = none
get k (member j v m) = if j == k then some v else get k m

unfoldable pub set : Text → Json → Members → Members
set k v end = member k v end
set k v (member j w m) =
    let rest = set k v m in
    if j == k
    then member j v m
    else if text_ltb k j
    then member k v (member j w m)
    else member j w rest

unfoldable pub delete : Text → Members → Members
delete k end = end
delete k (member j w m) = let rest = delete k m in if j == k then rest else member j w rest

unfoldable pub contains_key : Text → Members → Bool
contains_key k end = false
contains_key k (member j v m) = j == k || contains_key k m

pub get-set :
    (k i : Text) (v : Json) (m : Members) → get i (set k v m) ≡ (if k == i then some v else get i m)
unfolding get set
get-set k i v end = refl
get-set k i v (member j w m) =
    ground (arith, text_beq_iff k i, text_beq_iff j k, text_beq_iff j i, get-set k i v m)

pub get-delete :
    (k i : Text) (m : Members) → get i (delete k m) ≡ (if k == i then none else get i m)
unfolding get delete
get-delete k i end = ground arith
get-delete k i (member j w m) =
    ground (arith, text_beq_iff k i, text_beq_iff j k, text_beq_iff j i, get-delete k i m)

-- Each key stands once in an object, at every depth.
unfoldable pub has_keys_once : Members → Bool
has_keys_once end = true
has_keys_once (member k (object inner) m) =
    has_keys_once inner && (not (contains_key k m) && has_keys_once m)
has_keys_once (member k v m) = not (contains_key k m) && has_keys_once m

pub get-absent : (k : Text) (m : Members) → contains_key k m ≡ false → get k m ≡ none
unfolding get contains_key
get-absent k end h = refl
get-absent k (member j v m) h = ground (arith, get-absent k m)

pub get-present : (k : Text) (v : Json) (m : Members) → get k m ≡ some v → contains_key k m ≡ true
unfolding get contains_key
get-present k v end h = absurd (cc h)
get-present k v (member j w m) h = ground (arith, get-present k v m)

pub absent-contains_key : (k : Text) (m : Members) → get k m ≡ none → contains_key k m ≡ false
unfolding get contains_key
absent-contains_key k end h = refl
absent-contains_key k (member j v m) h = ground (arith, absent-contains_key k m)
