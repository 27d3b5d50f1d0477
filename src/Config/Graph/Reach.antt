-- ===== src/Config/Graph/Reach.antt =====
-- Walks in the graph of the blocks, and how many blocks a search has left.
use logik_smith.Prelude.{
  ℕ, ◌+◌, ◌≤◌, ◌<◌, ◌≡◌, true, false, List, [], ◌∷◌, arith, Bool-cases, inl, inr, if◌then◌else◌,
}
use logik_smith.Prelude.Order.{list_ord, nat_ord, same, same_refl, same_iff}
use logik_smith.Identifiers.{BlockId}
use logik_smith.Config.Graph.{Edges, children, has}

-- A signal of `a` has the consumer `b`.
abbrev pub IsEdge : Edges → BlockId → BlockId → Type 0
IsEdge edges a b = has (children edges a) b ≡ true

-- A walk of one edge or more
pub data Reaches (edges : Edges) (a : BlockId) : BlockId → Type 0 where
  edge : {b : BlockId} → IsEdge edges a b → Reaches edges a b
  onward : {b c : BlockId} → Reaches edges a b → IsEdge edges b c → Reaches edges a c

-- A block from which every walk ends
pub data Ends (edges : Edges) : BlockId → Type 0 where
  all_end : {a : BlockId} → ((b : BlockId) → IsEdge edges a b → Ends edges b) → Ends edges a

-- A walk, taken apart at its first edge
pub data Walks (edges : Edges) (c : BlockId) : BlockId → Type 0 where
  last : {a : BlockId} → IsEdge edges a c → Walks edges c a
  first : {a b : BlockId} → IsEdge edges a b → Walks edges c b → Walks edges c a

extend :
    {edges : Edges} {b : BlockId} (c : BlockId) {a : BlockId}
    → IsEdge edges b c
    → Walks edges b a
    → Walks edges c a
extend c e (last f) = first f (last e)
extend c e (first f w) = first f (extend c e w)

walk_of : {edges : Edges} {a c : BlockId} → Reaches edges a c → Walks edges c a
walk_of (edge e) = last e
walk_of (onward {b} {c} r e) = extend c e (walk_of r)

-- No walk from such a block comes back to it.
no_walk_back : {edges : Edges} {a : BlockId} → Ends edges a → Walks edges a a → ⊥
no_walk_back {edges} {a} (all_end f) (last e) = no_walk_back (f a e) (last e)
no_walk_back {edges} {a} (all_end f) (first {b} e w) = no_walk_back (f b e) (extend b e w)

pub Ends-irreflexive : (edges : Edges) (a : BlockId) → Ends edges a → Reaches edges a a → ⊥
Ends-irreflexive edges a h r = no_walk_back h (walk_of r)

-- How many of the blocks are not in the set
abbrev pub missing : List BlockId → List BlockId → ℕ
missing [] set = 0
missing (id ∷ ids) set = (if has set id then 0 else 1) + missing ids set

-- Every member of the first is a member of the second.
abbrev pub Within : List BlockId → List BlockId → Type 0
Within xs ys = (id : BlockId) → has xs id ≡ true → has ys id ≡ true

pub missing_mono : (ids xs ys : List BlockId) → Within xs ys → missing ids ys ≤ missing ids xs
missing_mono [] xs ys h = omega arith
missing_mono (id ∷ ids) xs ys h = ground (arith, h id, missing_mono ids xs ys h)

pub missing-cons :
    (ids set : List BlockId) (id : BlockId) → missing ids (id ∷ set) ≤ missing ids set
missing-cons ids set id = missing_mono ids set (id ∷ set) (λ other h. ground arith)

-- A new member of the set is one less that is missing.
pub missing_lt :
    (ids set : List BlockId) (id : BlockId)
    → has ids id ≡ true
    → has set id ≡ false
    → missing ids (id ∷ set) < missing ids set
missing_lt [] set id h k = cc
missing_lt (other ∷ ids) set id h k = elim (Bool-cases (same other id)) [
  | inl e ↦
      let fewer = missing-cons ids set id in
      ground (arith, (same_iff other id).0 e, same_refl id, k)
  | inr e ↦ let rest = missing_lt ids set id (ground arith) k in ground (arith, rest)
]
