-- ===== src/Prelude/MinBy.antt =====
-- `Iterator::min_by`: of two equal elements the first one stays.
use Prim.Native.Nat.{ℕ, zero, suc, Ordering}
use mathlib.Core.Path.{◌≡◌, refl, ap, sym, subst, ◌∙◌}
use mathlib.Core.Logic.{◌≢◌, ◌⊎◌, inl, inr}
use mathlib.Core.List.{List, [], ◌∷◌, ◌++◌, map}
use mathlib.Core.Option.{Option, none, some}
use native.Mathlib.Omega.{arith}
use mathlib.Core.Bool.{Bool, true}
use logik_smith.Prelude.Tests.{Bool-cases}
use logik_smith.Prelude.Lists.{All, get_elem?, keep, All-get_elem?}

lt_ne_gt : Ordering.lt ≢ Ordering.gt
lt_ne_gt e = cc

eq_ne_gt : Ordering.eq ≢ Ordering.gt
eq_ne_gt e = cc

module _ {ℓ} {A : Type ℓ} where
  -- `t` stands in the list.
  abbrev pub In : A → List A → Type ℓ
  In t ts = (i : ℕ) × (get_elem? ts i ≡ some t)

  pub In-suc : (t u : A) (ts : List A) → In t ts → In t (u ∷ ts)
  In-suc t u ts (i, e) = (suc i, e)

  pub In-head_or_tail : (t u : A) (ts : List A) → In t (u ∷ ts) → (u ≡ t) ⊎ In t ts
  In-head_or_tail t u ts (zero, e) = inl (ground arith)
  In-head_or_tail t u ts (suc i, e) = inr (i, e)

  -- What `filter` keeps passes the test, and stood in the list.
  pub In-keep : (p : A → Bool) (ts : List A) (t : A) → In t (keep p ts) → In t ts × (p t ≡ true)
  In-keep p [] t (i, e) = cc
  In-keep p (u ∷ ts) t h = elim (Bool-cases (p u)) [
    | inr f ↦ let (i, k) = In-keep p ts t (rw f at h) in (In-suc t u ts i, k)
    | inl e ↦ elim (In-head_or_tail t u (keep p ts) (rw e at h)) [
      | inl same ↦ ((0, ap some same), subst (λ x. p x ≡ true) same e)
      | inr later ↦ let (i, k) = In-keep p ts t later in (In-suc t u ts i, k)
    ]
  ]

  -- What passes the test is kept.
  pub keep-In : (p : A → Bool) (ts : List A) (t : A) → In t ts → p t ≡ true → In t (keep p ts)
  keep-In p [] t (i, e) h = cc
  keep-In p (u ∷ ts) t i h = elim (In-head_or_tail t u ts i) [
    | inl same ↦
        let passes : p u ≡ true = subst (λ x. p x ≡ true) (sym same) h in
        rw passes (0, ap some same)
    | inr later ↦ elim (Bool-cases (p u)) [
      | inl e ↦ rw e (In-suc t u (keep p ts) (keep-In p ts t later h))
      | inr e ↦ rw e (keep-In p ts t later h)
    ]
  ]

  -- An element of either part stands in the whole.
  pub append-In_left : (xs ys : List A) (t : A) → In t xs → In t (xs ++ ys)
  append-In_left [] ys t (i, e) = cc
  append-In_left (x ∷ xs) ys t (zero, e) = (0, e)
  append-In_left (x ∷ xs) ys t (suc i, e) = In-suc t x (xs ++ ys) (append-In_left xs ys t (i, e))

  pub append-In_right : (xs ys : List A) (t : A) → In t ys → In t (xs ++ ys)
  append-In_right [] ys t i = i
  append-In_right (x ∷ xs) ys t i = In-suc t x (xs ++ ys) (append-In_right xs ys t i)

  -- An element of a list has what they all have.
  pub All-In {κ} : (P : A → Type κ) (ts : List A) (t : A) → All P ts → In t ts → P t
  All-In P ts t h (i, e) = All-get_elem? P ts i h e

pub map-In {ℓ κ} :
    {A : Type ℓ} {B : Type κ} (f : A → B) (ts : List A) (t : A) → In t ts → In (f t) (map f ts)
map-In f [] t (i, e) = cc
map-In f (u ∷ ts) t (zero, e) = (0, ground arith)
map-In f (u ∷ ts) t (suc i, e) = let (j, q) = map-In f ts t (i, e) in (suc j, q)

module _ {ℓ} {A : Type ℓ} (cmp : A → A → Ordering) where
  -- The one that stays, given how it compares with the next one.
  unfoldable pub pick : Ordering → A → A → A
  pick Ordering.lt best t = best
  pick Ordering.eq best t = best
  pick Ordering.gt best t = t

  unfoldable pub min_from : A → List A → A
  min_from best [] = best
  min_from best (t ∷ ts) = min_from (pick (cmp best t) best t) ts

  unfoldable pub min_by : List A → Option A
  unfolding min_from
  min_by [] = none
  min_by (t ∷ ts) = some (min_from t ts)

  abbrev pub NoLater : A → A → Type 0
  NoLater t u = cmp t u ≢ Ordering.gt

  module _ (le_refl : (a : A) → NoLater a a)
      (le_trans : (a b c : A) → NoLater a b → NoLater b c → NoLater a c)
      (le_of_gt : (a b : A) → cmp a b ≡ Ordering.gt → NoLater b a) where
    weaken : (a b : A) (ts : List A) → NoLater a b → All (NoLater b) ts → All (NoLater a) ts
    weaken a b [] h k = tt
    weaken a b (t ∷ ts) h k = (le_trans a b t h k.0, weaken a b ts h k.1)

    -- The least of `best` and a list is before all of them, and one of them.
    abbrev Least : A → List A → A → Type ℓ
    Least best ts m = NoLater m best × All (NoLater m) ts × ((m ≡ best) ⊎ In m ts)

    step_keep :
        (best t : A) (ts : List A) (m : A)
        → NoLater best t
        → Least best ts m
        → Least best (t ∷ ts) m
    step_keep best t ts m h (b, l, w) =
        (b, (le_trans m best t b h, l), elim w [ inl e ↦ inl e | inr (i, e) ↦ inr (suc i, e) ])

    step_take :
        (best t : A) (ts : List A) (m : A) → NoLater t best → Least t ts m → Least best (t ∷ ts) m
    step_take best t ts m h (b, l, w) = (
      le_trans m t best b h,
      (b, l),
      elim w [ inl e ↦ inr (0, ap some (sym e)) | inr (i, e) ↦ inr (suc i, e) ],
    )

    abbrev Smaller : A → List A → Type ℓ
    Smaller best ts = Least best ts (min_from best ts)

    pick-Least :
        (c : Ordering) (best t : A) (ts : List A)
        → cmp best t ≡ c
        → Smaller best ts
        → Smaller t ts
        → Least best (t ∷ ts) (min_from (pick c best t) ts)
    unfolding pick
    pick-Least Ordering.lt best t ts e h k =
        step_keep best t ts (min_from best ts) (λ x. lt_ne_gt (sym e ∙ x)) h
    pick-Least Ordering.eq best t ts e h k =
        step_keep best t ts (min_from best ts) (λ x. eq_ne_gt (sym e ∙ x)) h
    pick-Least Ordering.gt best t ts e h k =
        step_take best t ts (min_from t ts) (le_of_gt best t e) k

    min_from_least : (best : A) (ts : List A) → Smaller best ts
    unfolding min_from
    min_from_least best [] = (le_refl best, tt, inl refl)
    min_from_least best (t ∷ ts) =
        pick-Least (cmp best t) best t ts refl (min_from_least best ts) (min_from_least t ts)

    -- What `min_by` returns stands in the list and is no later than any element.
    pub min_by_sound : (ts : List A) {m : A} → min_by ts ≡ some m → In m ts × All (NoLater m) ts
    unfolding min_by
    min_by_sound [] h = cc
    min_by_sound (t ∷ ts) {m} h =
        let (b, l, w) = min_from_least t ts in
        let e : min_from t ts ≡ m = ground arith in
        subst (λ x. In x (t ∷ ts) × All (NoLater x) (t ∷ ts)) e
          (elim w [ inl p ↦ (0, ap some (sym p)) | inr (i, p) ↦ (suc i, p) ], (b, l))
