-- ===== src/Timer/Effects.antt =====
-- What a list of timer effects leaves pending.
use logik_smith.Prelude.{ℕ, ◌≡◌, refl, Option, none, some, List, [], ◌∷◌, arith, All, if◌then◌else◌}
use logik_smith.Prelude.Order.{list_ord, nat_ord, same}
use logik_smith.BTreeMap.{get, insert, remove, keys}
use logik_smith.BTreeMap.Laws.{get-insert, get-remove, All-insert, All-remove}
use logik_smith.Values.{MonotonicMs}
use logik_smith.Program.{TimerName, LogicRevision}
use logik_smith.Timer.{
  TimerAction, scheduled, replaced, cancelled, cancel_noop, TimerEffect, PendingTimer, Timers,
  apply_action, apply_timer_effects,
}

-- What one action leaves of the timer that it names.
abbrev pub outcome_of : TimerName → TimerAction → MonotonicMs → LogicRevision → Option PendingTimer
outcome_of name (scheduled after_ms due) now revision =
    some (record {
      name = name;
      scheduled_at = now;
      due_at = due;
      scheduled_logic_revision = revision;
    })
outcome_of name (replaced old after_ms due) now revision =
    some (record {
      name = name;
      scheduled_at = now;
      due_at = due;
      scheduled_logic_revision = revision;
    })
outcome_of name (cancelled old) now revision = none
outcome_of name cancel_noop now revision = none

-- The last effect on a timer decides; without one the timer stays as it was.
abbrev pub decided :
    TimerName
    → List TimerEffect
    → MonotonicMs
    → LogicRevision
    → Option PendingTimer
    → Option PendingTimer
decided j [] now revision old = old
decided j (e ∷ es) now revision old =
    decided j es now revision
      (if same e.name j then outcome_of e.name e.action now revision else old)

get-apply_action :
    (j : TimerName) (m : Timers) (name : TimerName) (a : TimerAction) (now revision : ℕ)
    → get j (apply_action m name a now revision)
      ≡ (if same name j then outcome_of name a now revision else get j m)
unfolding apply_action
get-apply_action j m name (scheduled w d) now revision = get-insert name j _ m
get-apply_action j m name (replaced p w d) now revision = get-insert name j _ m
get-apply_action j m name (cancelled p) now revision = get-remove name j m
get-apply_action j m name cancel_noop now revision = get-remove name j m

-- After the effects of a transition, each timer is what its last effect says: pending from now with
-- the effect's deadline and the active revision, or gone; a timer with no effect is untouched.
pub get-apply_timer_effects :
    (j : TimerName) (m : Timers) (es : List TimerEffect) (now : MonotonicMs)
    (revision : LogicRevision)
    → get j (apply_timer_effects m es now revision) ≡ decided j es now revision (get j m)
unfolding apply_timer_effects
get-apply_timer_effects j m [] now revision = refl
get-apply_timer_effects j m (e ∷ es) now revision =
    rw (← get-apply_action j m e.name e.action now revision)
      (get-apply_timer_effects j (apply_action m e.name e.action now revision) es now revision)

-- An entry is stored under its own name and belongs to the given revision.
abbrev pub IsOfRevision : LogicRevision → TimerName × PendingTimer → Type 0
IsOfRevision r e = (e.1.name ≡ e.0) × (e.1.scheduled_logic_revision ≡ r)

apply_action-IsOfRevision :
    (m : Timers) (name : TimerName) (a : TimerAction) (now r : ℕ)
    → All (IsOfRevision r) m
    → All (IsOfRevision r) (apply_action m name a now r)
unfolding apply_action
apply_action-IsOfRevision m name (scheduled w d) now r h =
    All-insert (IsOfRevision r) name _ m (refl, refl) h
apply_action-IsOfRevision m name (replaced p w d) now r h =
    All-insert (IsOfRevision r) name _ m (refl, refl) h
apply_action-IsOfRevision m name (cancelled p) now r h = All-remove (IsOfRevision r) name m h
apply_action-IsOfRevision m name cancel_noop now r h = All-remove (IsOfRevision r) name m h

-- If every pending timer is stored under its own name and belongs to a revision, the same holds after
-- effects that are applied under that revision.
pub apply_timer_effects-IsOfRevision :
    (m : Timers) (es : List TimerEffect) (now r : ℕ)
    → All (IsOfRevision r) m
    → All (IsOfRevision r) (apply_timer_effects m es now r)
unfolding apply_timer_effects
apply_timer_effects-IsOfRevision m [] now r h = h
apply_timer_effects-IsOfRevision m (e ∷ es) now r h =
    apply_timer_effects-IsOfRevision (apply_action m e.name e.action now r) es now r
      (apply_action-IsOfRevision m e.name e.action now r h)

-- The keys that stay pending do not depend on the revision that the effects record.
keys-insert :
    (k : TimerName) (v w : PendingTimer) (m n : Timers)
    → keys m ≡ keys n
    → keys (insert k v m) ≡ keys (insert k w n)
unfolding insert
keys-insert k v w [] [] h = refl
keys-insert k v w [] ((j, y) ∷ n) h = cc
keys-insert k v w ((i, x) ∷ m) [] h = cc
keys-insert k v w ((i, x) ∷ m) ((j, y) ∷ n) h = ground (arith, keys-insert k v w m n)

keys-remove :
    (k : TimerName) (m n : Timers) → keys m ≡ keys n → keys (remove k m) ≡ keys (remove k n)
unfolding remove
keys-remove k [] [] h = refl
keys-remove k [] ((j, y) ∷ n) h = cc
keys-remove k ((i, x) ∷ m) [] h = cc
keys-remove k ((i, x) ∷ m) ((j, y) ∷ n) h = ground (arith, keys-remove k m n)

keys-apply_action :
    (m n : Timers) (name : TimerName) (a : TimerAction) (now r q : ℕ)
    → keys m ≡ keys n
    → keys (apply_action m name a now r) ≡ keys (apply_action n name a now q)
unfolding apply_action
keys-apply_action m n name (scheduled w d) now r q h = keys-insert name _ _ m n h
keys-apply_action m n name (replaced p w d) now r q h = keys-insert name _ _ m n h
keys-apply_action m n name (cancelled p) now r q h = keys-remove name m n h
keys-apply_action m n name cancel_noop now r q h = keys-remove name m n h

pub keys-apply_timer_effects :
    (m n : Timers) (es : List TimerEffect) (now r q : ℕ)
    → keys m ≡ keys n
    → keys (apply_timer_effects m es now r) ≡ keys (apply_timer_effects n es now q)
unfolding apply_timer_effects
keys-apply_timer_effects m n [] now r q h = h
keys-apply_timer_effects m n (e ∷ es) now r q h =
    keys-apply_timer_effects (apply_action m e.name e.action now r)
      (apply_action n e.name e.action now q) es now r q
      (keys-apply_action m n e.name e.action now r q h)
