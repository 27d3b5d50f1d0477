-- ===== src/Engine/TimerOrder.antt =====
-- Which timer fires: the earliest of the due ones, by deadline and then by name.
use logik_smith.Prelude.{
  ◌≤◌, ◌≡◌, refl, none, some, List, [], ◌∷◌, All, arith, Bool-cases, ◌<◌, keep, leb, Ordering, inl,
  inr, ◌⊎◌,
}
use logik_smith.Prelude.MinBy.{In, In-keep, NoLater, min_by, min_by_sound}
use logik_smith.Prelude.Order.{
  list_ord, nat_ord, pair_ord, pair_cmp, IsLe, IsLe-refl, IsLe-trans, IsLe-of_gt,
}
use logik_smith.BTreeMap.{values}
use logik_smith.Values.{MonotonicMs}
use logik_smith.Program.{TimerName}
use logik_smith.Timer.{PendingTimer, Timers}
use logik_smith.Engine.DueTimers.{timer_cmp, due_timers}

abbrev key : PendingTimer → MonotonicMs × TimerName
key t = (t.due_at, t.name)

-- `t` is no later than `u`: by deadline, and by name between equal deadlines.
abbrev pub IsNoLater : PendingTimer → PendingTimer → Type 0
IsNoLater t u = (t.due_at < u.due_at) ⊎ ((t.due_at ≡ u.due_at) × IsLe t.name u.name)

abbrev Passes : PendingTimer → PendingTimer → Type 0
Passes = NoLater timer_cmp

Passes-refl : (t : PendingTimer) → Passes t t
unfolding timer_cmp pair_ord pair_cmp
Passes-refl t = IsLe-refl (key t)

Passes-trans : (t u v : PendingTimer) → Passes t u → Passes u v → Passes t v
unfolding timer_cmp pair_ord pair_cmp
Passes-trans t u v = IsLe-trans (key t) (key u) (key v)

Passes-of_gt : (t u : PendingTimer) → timer_cmp t u ≡ Ordering.gt → Passes u t
unfolding timer_cmp pair_ord pair_cmp
Passes-of_gt t u = IsLe-of_gt (key t) (key u)

Passes-IsNoLater : (t u : PendingTimer) → Passes t u → IsNoLater t u
unfolding timer_cmp
Passes-IsNoLater t u h = ground arith

All-IsNoLater :
    (t : PendingTimer) (ts : List PendingTimer) → All (Passes t) ts → All (IsNoLater t) ts
All-IsNoLater t [] h = tt
All-IsNoLater t (u ∷ us) h = (Passes-IsNoLater t u h.0, All-IsNoLater t us h.1)

-- The timer that `min_by` selects among the due ones is pending and due, and no due timer is before it.
pub selected_timer :
    (pending : Timers) (now : MonotonicMs) {t : PendingTimer}
    → min_by timer_cmp (due_timers pending now) ≡ some t
    → In t (values pending) × (t.due_at ≤ now) × All (IsNoLater t) (due_timers pending now)
unfolding due_timers
selected_timer pending now {t} h =
    let (i, l) =
      min_by_sound timer_cmp Passes-refl Passes-trans Passes-of_gt (due_timers pending now) {m = t}
        h in
    let (w, d) = In-keep (λ u. leb u.due_at now) (values pending) t i in
    (w, (ground arith), All-IsNoLater t (due_timers pending now) l)

none_due :
    (now : MonotonicMs) (ts : List PendingTimer)
    → keep (λ t. leb t.due_at now) ts ≡ []
    → All (λ t. now < t.due_at) ts
none_due now [] h = tt
none_due now (t ∷ ts) h = elim (Bool-cases (leb t.due_at now)) [
  | inl e ↦ ground arith
  | inr f ↦ ((ground arith), none_due now ts (rw f at h))
]

min_by-none {ℓ} :
    {A : Type ℓ} (cmp : A → A → Ordering) (ts : List A) → min_by cmp ts ≡ none → ts ≡ []
unfolding min_by
min_by-none cmp [] h = refl
min_by-none cmp (t ∷ ts) h = ground arith

-- Without a selection no pending timer is due.
pub no_selected_timer :
    (pending : Timers) (now : MonotonicMs)
    → min_by timer_cmp (due_timers pending now) ≡ none
    → All (λ t. now < t.due_at) (values pending)
unfolding due_timers
no_selected_timer pending now h =
    none_due now (values pending) (min_by-none timer_cmp (due_timers pending now) h)
