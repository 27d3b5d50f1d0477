-- ===== src/Block/Window.antt =====
-- The window of live executions: pruning the front of the queue, and the rate that admission bounds.
use logik_smith.Prelude.{
  some, ℕ, ◌-◌, ◌≤◌, ◌<◌, ◌≡◌, refl, Bool, true, false, List, [], ◌∷◌, ◌++◌, All, arith, leb, not,
  keep, length, Bool-cases, ◌⊎◌, inl, inr, All-append,
}
use logik_smith.Values.{MonotonicMs}
use logik_smith.Block.{
  LogicBlock, suspended_event_rate, event_rate, prune, prune_live_execution_window,
  live_executions_in_window, admit_pruned, is_active, admit_live_execution,
}

-- The start times in the order in which they were admitted.
abbrev pub IsOrdered : List MonotonicMs → Type 0
IsOrdered [] = Unit
IsOrdered (t ∷ ts) = All (λ u. t ≤ u) ts × IsOrdered ts

abbrev is_recent : MonotonicMs → MonotonicMs → Bool
is_recent now started = not (leb 1000 (now - started))

All-recent :
    (now t : MonotonicMs) (ts : List MonotonicMs)
    → All (λ u. t ≤ u) ts
    → is_recent now t ≡ true
    → keep (is_recent now) ts ≡ ts
All-recent now t [] h e = refl
All-recent now t (u ∷ us) h e =
    let r : is_recent now u ≡ true = ground (arith, h.0) in
    rw r (rw (All-recent now t us h.1 e) refl)

-- In an ordered queue the pruned front is everything that is at least a second old.
pub prune-eq-keep :
    (now : MonotonicMs) (ts : List MonotonicMs)
    → IsOrdered ts
    → prune now ts ≡ keep (is_recent now) ts
unfolding prune
prune-eq-keep now [] h = refl
prune-eq-keep now (t ∷ ts) h = elim (Bool-cases (leb 1000 (now - t))) [
  | inl e ↦ rw (e, prune) (prune-eq-keep now ts h.1)
  | inr f ↦ rw (f, prune, All-recent now t ts h.0 (ground arith)) refl
]

-- The start times of the last second.
abbrev pub recent : MonotonicMs → List MonotonicMs → List MonotonicMs
recent now ts = keep (is_recent now) ts

-- What an admission did.
abbrev pub Admits : LogicBlock → MonotonicMs → ℕ → Bool × LogicBlock → Type 0
Admits block now maximum r =
    ((r.0 ≡ true)
      × (is_active block.health ≡ true)
      × (live_executions_in_window block now < maximum)
      × (r.1 ≡ record block {
        live_execution_times = recent now block.live_execution_times ++ now ∷ [];
      }))
    ⊎ (((r.0 ≡ false) × (is_active block.health ≡ false) × (r.1 ≡ block))
        ⊎ ((r.0 ≡ false)
            × (is_active block.health ≡ true)
            × (maximum ≤ live_executions_in_window block now)
            × (r.1.health ≡ suspended_event_rate)
            × (r.1.last_suspension ≡ some event_rate)
            × (r.1.engine.pending_timers ≡ [])
            × (r.1.consecutive_failures ≡ 0)))

-- With ordered start times, a live execution is admitted exactly when the block is active and fewer
-- than the maximum started in the last second: then its time joins those of the last second and the
-- rest of the block stays. An inactive block is left as it was; an active one at its maximum is
-- suspended for its rate, with its timers cancelled and its failures forgotten.
pub admit_live_execution_lem :
    (block : LogicBlock) (now : MonotonicMs) (maximum : ℕ)
    → IsOrdered block.live_execution_times
    → Admits block now maximum (admit_live_execution block now maximum)
unfolding admit_live_execution admit_pruned prune_live_execution_window live_executions_in_window
    is_active
admit_live_execution_lem block now maximum h =
    let w = prune-eq-keep now block.live_execution_times h in
    elim (Bool-cases (is_active block.health)) [
      | inr f ↦ rw (f, admit_live_execution) (inr (inl (refl, refl, refl)))
      | inl e ↦ elim (Bool-cases (leb maximum (length (recent now block.live_execution_times)))) [
        | inl g ↦
            rw (e, admit_live_execution, admit_pruned, prune_live_execution_window, w, g)
              (inr (inr (refl, refl, (ground arith), refl, refl, refl, refl)))
        | inr g ↦
            rw (e, admit_live_execution, admit_pruned, prune_live_execution_window, w, g)
              (inl (refl, refl, (ground arith), refl))
      ]
    ]

keep-All :
    (P : MonotonicMs → Type 0) (p : MonotonicMs → Bool) (ts : List MonotonicMs)
    → All P ts
    → All P (keep p ts)
keep-All P p [] h = tt
keep-All P p (t ∷ ts) h = elim (Bool-cases (p t)) [
  | inl e ↦ rw e (h.0, keep-All P p ts h.1)
  | inr f ↦ rw f (keep-All P p ts h.1)
]

keep-IsOrdered :
    (p : MonotonicMs → Bool) (ts : List MonotonicMs) → IsOrdered ts → IsOrdered (keep p ts)
keep-IsOrdered p [] h = tt
keep-IsOrdered p (t ∷ ts) h = elim (Bool-cases (p t)) [
  | inl e ↦ rw e (keep-All (λ u. t ≤ u) p ts h.0, keep-IsOrdered p ts h.1)
  | inr f ↦ rw f (keep-IsOrdered p ts h.1)
]

snoc-IsOrdered :
    (ts : List MonotonicMs) (now : MonotonicMs)
    → All (λ t. t ≤ now) ts
    → IsOrdered ts
    → IsOrdered (ts ++ now ∷ [])
snoc-IsOrdered [] now h o = (tt, tt)
snoc-IsOrdered (t ∷ ts) now h o =
    (All-append (λ u. t ≤ u) ts (now ∷ []) o.0 (h.0, tt), snoc-IsOrdered ts now h.1 o.1)

-- Admission keeps the queue ordered when its time is no earlier than those in it.
pub admitted-IsOrdered :
    (ts : List MonotonicMs) (now : MonotonicMs)
    → All (λ t. t ≤ now) ts
    → IsOrdered ts
    → IsOrdered (recent now ts ++ now ∷ [])
admitted-IsOrdered ts now h o =
    snoc-IsOrdered (recent now ts) now (keep-All (λ t. t ≤ now) (is_recent now) ts h)
      (keep-IsOrdered (is_recent now) ts o)

pub length-recent_le :
    (now : MonotonicMs) (ts : List MonotonicMs) → length (recent now ts) ≤ length ts
length-recent_le now [] = omega arith
length-recent_le now (t ∷ ts) = ground (arith, length-recent_le now ts)

pub recent-IsOrdered :
    (now : MonotonicMs) (ts : List MonotonicMs) → IsOrdered ts → IsOrdered (recent now ts)
recent-IsOrdered now ts = keep-IsOrdered (is_recent now) ts
