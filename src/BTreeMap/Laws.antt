-- ===== src/BTreeMap/Laws.antt =====
-- Laws of the ordered map: what a lookup reads after a write, the sizes, and the key order.
use logik_smith.Prelude.{
  ◌+◌, ◌≤◌, ◌≡◌, refl, true, false, none, some, [], ◌∷◌, Ordering, arith, if◌then◌else◌, All,
}
use logik_smith.Prelude.Order.{Ord, same}
use logik_smith.BTreeMap.{BTreeMap, get, insert, remove, len}

module _ {ℓ κ} {K : Type ℓ} {V : Type κ} ⦃o : Ord K⦄ where
  pub get-insert :
      (k j : K) (v : V) (m : BTreeMap K V)
      → get j (insert k v m) ≡ (if same k j then some v else get j m)
  unfolding get insert
  get-insert k j v [] = refl
  get-insert k j v ((i, w) ∷ m) = ground (
    arith,
    get-insert k j v m,
    o.cmp_eq k i,
    o.cmp_eq i j,
    o.cmp_eq k j,
    o.cmp_refl k,
    o.cmp_refl j,
    o.cmp_refl i,
    o.cmp_swap k i,
    o.cmp_swap i j,
  )

  pub get-remove :
      (k j : K) (m : BTreeMap K V) → get j (remove k m) ≡ (if same k j then none else get j m)
  unfolding get remove
  get-remove k j [] = ground arith
  get-remove k j ((i, w) ∷ m) = ground (
    arith,
    get-remove k j m,
    o.cmp_eq i k,
    o.cmp_eq i j,
    o.cmp_eq k j,
    o.cmp_refl k,
    o.cmp_refl j,
    o.cmp_refl i,
  )

  pub length-insert_le : (k : K) (v : V) (m : BTreeMap K V) → len (insert k v m) ≤ len m + 1
  unfolding insert
  length-insert_le k v [] = omega arith
  length-insert_le k v ((i, w) ∷ m) = ground (arith, length-insert_le k v m)

  pub length-remove_le : (k : K) (m : BTreeMap K V) → len (remove k m) ≤ len m
  unfolding remove
  length-remove_le k [] = omega arith
  length-remove_le k ((i, w) ∷ m) = ground (arith, length-remove_le k m)

  -- A property of the entries is kept by a write of an entry that has it.
  pub All-insert {μ} :
      (P : K × V → Type μ) (k : K) (v : V) (m : BTreeMap K V)
      → P (k, v)
      → All P m
      → All P (insert k v m)
  unfolding insert
  All-insert P k v [] h a = (h, a)
  All-insert P k v ((i, w) ∷ m) h a =
      elim (o.cmp k i)
        as (λ c. All P (elim c [
          | Ordering.lt ↦ (k, v) ∷ (i, w) ∷ m
          | Ordering.eq ↦ (k, v) ∷ m
          | Ordering.gt ↦ (i, w) ∷ insert k v m
        ])) [
          | Ordering.lt ↦ (h, a)
          | Ordering.eq ↦ (h, a.1)
          | Ordering.gt ↦ (a.0, All-insert P k v m h a.1)
        ]

  pub All-remove {μ} :
      (P : K × V → Type μ) (k : K) (m : BTreeMap K V) → All P m → All P (remove k m)
  unfolding remove
  All-remove P k [] a = a
  All-remove P k ((i, w) ∷ m) a =
      elim (same i k) as (λ b. All P (if b then remove k m else (i, w) ∷ remove k m)) [
        | true ↦ All-remove P k m a.1
        | false ↦ (a.0, All-remove P k m a.1)
      ]

  pub All-get {μ} :
      (P : K × V → Type μ) (k : K) (m : BTreeMap K V) {v : V}
      → All P m
      → get k m ≡ some v
      → P (k, v)
  unfolding get
  All-get P k [] a e = cc
  All-get P k ((i, w) ∷ m) {v} a e = ground (arith, o.cmp_eq i k, a.0, All-get P k m {v = v} a.1)

  -- The keys rise strictly, each above the bound before it.
  abbrev pub Above : K → BTreeMap K V → Type ℓ
  Above k [] = Unit
  Above k ((j, w) ∷ m) = (o.cmp k j ≡ Ordering.lt) × Above j m

  abbrev pub IsSorted : BTreeMap K V → Type ℓ
  IsSorted [] = Unit
  IsSorted ((j, w) ∷ m) = Above j m

  Above-insert :
      (b k : K) (v : V) (m : BTreeMap K V)
      → o.cmp b k ≡ Ordering.lt
      → Above b m
      → Above b (insert k v m)
  unfolding insert
  Above-insert b k v [] h a = (h, tt)
  Above-insert b k v ((i, w) ∷ m) h a =
      ground (arith, a, o.cmp_eq k i, o.cmp_swap k i, Above-insert i k v m)

  pub insert-IsSorted : (k : K) (v : V) (m : BTreeMap K V) → IsSorted m → IsSorted (insert k v m)
  unfolding insert
  insert-IsSorted k v [] s = tt
  insert-IsSorted k v ((i, w) ∷ m) s =
      ground (arith, o.cmp_eq k i, o.cmp_swap k i, Above-insert i k v m)
