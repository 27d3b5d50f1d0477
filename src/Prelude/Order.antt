-- ===== src/Prelude/Order.antt =====
-- The trait `Ord`, with the laws that it asks for, at the types that the source compares.
use Prim.Native.Nat.{ℕ, compare, Ordering}
use Prim.Native.Nat.Ordering.{lt, eq, gt}
use mathlib.Core.Path.{◌≡◌, refl}
use mathlib.Core.Logic.{◌↔◌, ◌≢◌}
use mathlib.Core.Bool.{Bool, true, false}
use mathlib.Core.List.{List, [], ◌∷◌}
use native.Mathlib.Omega.{arith}

abbrev pub opposite : Ordering → Ordering
opposite lt = gt
opposite eq = eq
opposite gt = lt

-- `Ordering::then_with`
abbrev pub then_with : Ordering → Ordering → Ordering
then_with eq second = second
then_with lt _ = lt
then_with gt _ = gt

pub record Ord {ℓ} (K : Type ℓ) : Type ℓ where
  pub cmp : K → K → Ordering
  pub cmp_refl : (a : K) → cmp a a ≡ eq
  pub cmp_eq : (a b : K) → cmp a b ≡ eq → a ≡ b
  pub cmp_swap : (a b : K) → cmp b a ≡ opposite (cmp a b)
  pub cmp_trans : (a b c : K) → cmp a b ≡ lt → cmp b c ≡ lt → cmp a c ≡ lt

-- `a == b` of a type with a lawful order
abbrev pub same {ℓ} : {K : Type ℓ} ⦃o : Ord K⦄ → K → K → Bool
same ⦃o⦄ a b = elim (o.cmp a b) [ eq ↦ true | _ ↦ false ]

module _ {ℓ} {K : Type ℓ} ⦃o : Ord K⦄ where
  pub same_refl : (a : K) → same a a ≡ true
  same_refl a = ground (arith, o.cmp_refl a)

  pub same_iff : (a b : K) → (same a b ≡ true) ↔ (a ≡ b)
  same_iff a b = (λ h. ground (arith, o.cmp_eq a b), λ h. ground (arith, o.cmp_refl a))

pub compare-swap : (a b : ℕ) → compare b a ≡ opposite (compare a b)
compare-swap a b = ground arith

pub compare_refl : (a : ℕ) → compare a a ≡ eq
compare_refl a = ground arith

pub compare-eq : (a b : ℕ) → compare a b ≡ eq → a ≡ b
compare-eq a b h = ground arith

pub compare_trans : (a b c : ℕ) → compare a b ≡ lt → compare b c ≡ lt → compare a c ≡ lt
compare_trans a b c h k = ground arith

instance abbrev pub nat_ord : Ord ℕ
nat_ord = record {
  cmp = compare;
  cmp_refl = compare_refl;
  cmp_eq = compare-eq;
  cmp_swap = compare-swap;
  cmp_trans = compare_trans;
}

module _ {ℓ} {K : Type ℓ} ⦃o : Ord K⦄ where
  -- sequences compare lexicographically
  pub list_cmp : List K → List K → Ordering
  list_cmp [] [] = eq
  list_cmp [] (y ∷ ys) = lt
  list_cmp (x ∷ xs) [] = gt
  list_cmp (x ∷ xs) (y ∷ ys) = then_with (o.cmp x y) (list_cmp xs ys)

  pub list_cmp_refl : (a : List K) → list_cmp a a ≡ eq
  unfolding list_cmp
  list_cmp_refl [] = refl
  list_cmp_refl (x ∷ xs) = ground (arith, o.cmp_refl x, list_cmp_refl xs)

  pub list_cmp-eq : (a b : List K) → list_cmp a b ≡ eq → a ≡ b
  unfolding list_cmp
  list_cmp-eq [] [] h = refl
  list_cmp-eq [] (y ∷ ys) h = cc
  list_cmp-eq (x ∷ xs) [] h = cc
  list_cmp-eq (x ∷ xs) (y ∷ ys) h = ground (arith, o.cmp_eq x y, list_cmp-eq xs ys)

  pub list_cmp_swap : (a b : List K) → list_cmp b a ≡ opposite (list_cmp a b)
  unfolding list_cmp
  list_cmp_swap [] [] = refl
  list_cmp_swap [] (y ∷ ys) = refl
  list_cmp_swap (x ∷ xs) [] = refl
  list_cmp_swap (x ∷ xs) (y ∷ ys) = ground (arith, o.cmp_swap x y, list_cmp_swap xs ys)

  pub list_cmp_trans : (a b c : List K) → list_cmp a b ≡ lt → list_cmp b c ≡ lt → list_cmp a c ≡ lt
  unfolding list_cmp
  list_cmp_trans [] [] c h k = cc
  list_cmp_trans [] (y ∷ ys) [] h k = cc
  list_cmp_trans [] (y ∷ ys) (z ∷ zs) h k = refl
  list_cmp_trans (x ∷ xs) [] c h k = cc
  list_cmp_trans (x ∷ xs) (y ∷ ys) [] h k = cc
  list_cmp_trans (x ∷ xs) (y ∷ ys) (z ∷ zs) h k =
      ground (arith, o.cmp_eq x y, o.cmp_eq y z, o.cmp_trans x y z, list_cmp_trans xs ys zs)

  instance unfoldable pub list_ord : Ord (List K)
  unfolding list_cmp
  list_ord = record {
    cmp = list_cmp;
    cmp_refl = list_cmp_refl;
    cmp_eq = list_cmp-eq;
    cmp_swap = list_cmp_swap;
    cmp_trans = list_cmp_trans;
  }

module _ {ℓ κ} {A : Type ℓ} {B : Type κ} ⦃a : Ord A⦄ ⦃b : Ord B⦄ where
  unfoldable pub pair_cmp : A × B → A × B → Ordering
  pair_cmp x y = then_with (a.cmp x.0 y.0) (b.cmp x.1 y.1)

  pub pair_cmp-eq : (x y : A × B) → pair_cmp x y ≡ eq → x ≡ y
  unfolding pair_cmp
  pair_cmp-eq x y h = ground (arith, a.cmp_eq x.0 y.0, b.cmp_eq x.1 y.1)

  pub pair_cmp_swap : (x y : A × B) → pair_cmp y x ≡ opposite (pair_cmp x y)
  unfolding pair_cmp
  pair_cmp_swap x y = ground (arith, a.cmp_swap x.0 y.0, b.cmp_swap x.1 y.1)

  pub pair_cmp_trans : (x y z : A × B) → pair_cmp x y ≡ lt → pair_cmp y z ≡ lt → pair_cmp x z ≡ lt
  unfolding pair_cmp
  pair_cmp_trans x y z h k =
      ground (
        arith,
        a.cmp_eq x.0 y.0,
        a.cmp_eq y.0 z.0,
        a.cmp_trans x.0 y.0 z.0,
        b.cmp_trans x.1 y.1 z.1,
      )

  pub pair_cmp_refl : (x : A × B) → pair_cmp x x ≡ eq
  unfolding pair_cmp
  pair_cmp_refl x = ground (arith, a.cmp_refl x.0, b.cmp_refl x.1)

  instance unfoldable pub pair_ord : Ord (A × B)
  unfolding pair_cmp
  pair_ord = record {
    cmp = pair_cmp;
    cmp_refl = pair_cmp_refl;
    cmp_eq = pair_cmp-eq;
    cmp_swap = pair_cmp_swap;
    cmp_trans = pair_cmp_trans;
  }

module _ {ℓ} {K : Type ℓ} ⦃o : Ord K⦄ where
  -- `a <= b`
  abbrev pub IsLe : K → K → Type 0
  IsLe a b = o.cmp a b ≢ gt

  pub IsLe-refl : (a : K) → IsLe a a
  IsLe-refl a h = ground (arith, o.cmp_refl a)

  pub IsLe-trans : (a b c : K) → IsLe a b → IsLe b c → IsLe a c
  IsLe-trans a b c h k g = ground (arith, o.cmp_eq a b, o.cmp_eq b c, o.cmp_trans a b c)

  -- A tested `gt` means that the two stand the other way round.
  pub IsLe-of_gt : (a b : K) → o.cmp a b ≡ gt → IsLe b a
  IsLe-of_gt a b h g = ground (arith, o.cmp_swap a b)
