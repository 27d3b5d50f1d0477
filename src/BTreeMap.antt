-- ===== src/BTreeMap.antt =====
-- `std::collections::BTreeMap` as the source uses it: an association list in key order. `get`,
-- `insert`, `remove` and the iterators, with their laws in `BTreeMap.Laws`.
pub mod Laws
use logik_smith.Prelude.{
  ℕ, Bool, Option, none, some, List, [], ◌∷◌, map, Ordering, if◌then◌else◌, is_some, length,
}
use logik_smith.Prelude.Order.{Ord, same}

abbrev pub BTreeMap {ℓ κ} : Type ℓ → Type κ → Type (ℓ ⊔ κ)
BTreeMap K V = List (K × V)

module _ {ℓ κ} {K : Type ℓ} {V : Type κ} where
  abbrev pub empty : BTreeMap K V
  empty = []

  -- `values()`, in key order
  abbrev pub values : BTreeMap K V → List V
  values m = map (λ e. e.1) m

  -- `keys()`
  abbrev pub keys : BTreeMap K V → List K
  keys m = map (λ e. e.0) m

  abbrev pub len : BTreeMap K V → ℕ
  len m = length m

module _ {ℓ κ} {K : Type ℓ} {V : Type κ} ⦃o : Ord K⦄ where
  unfoldable pub get : K → BTreeMap K V → Option V
  get k [] = none
  get k ((j, v) ∷ m) = if same j k then some v else get k m

  pub contains_key : K → BTreeMap K V → Bool
  contains_key k m = is_some (get k m)

  -- An equal key keeps its place and takes the new value.
  unfoldable pub insert : K → V → BTreeMap K V → BTreeMap K V
  insert k v [] = (k, v) ∷ []
  insert k v ((j, w) ∷ m) = elim (o.cmp k j) [
    | Ordering.lt ↦ (k, v) ∷ (j, w) ∷ m
    | Ordering.eq ↦ (k, v) ∷ m
    | Ordering.gt ↦ (j, w) ∷ insert k v m
  ]

  unfoldable pub remove : K → BTreeMap K V → BTreeMap K V
  remove k [] = []
  remove k ((j, w) ∷ m) = if same j k then remove k m else (j, w) ∷ remove k m

  -- `for (key, value) in patch { self.insert(key, value) }`
  unfoldable pub extend : BTreeMap K V → List (K × V) → BTreeMap K V
  extend m [] = m
  extend m ((k, v) ∷ es) = extend (insert k v m) es
