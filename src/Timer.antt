-- ===== src/Timer.antt =====
-- crates/logiksmith-core/src/state.rs: named timers, the effects on them, and their validation.
pub mod Effects
use logik_smith.Prelude.{
  ℕ, Bool, Option, none, some, List, [], ◌∷◌, ◌==◌, ltb, if◌then◌else◌, not, length, is_some,
}
use logik_smith.Prelude.Order.{list_ord, nat_ord}
use logik_smith.Prelude.Result.{Result, ok, err, ◌>>=◌, ◌>>◌, reject}
use logik_smith.BTreeMap.{BTreeMap, len, get, insert, remove, values}
use logik_smith.Text.{Text}
use logik_smith.Limits.{RuntimeLimits}
use logik_smith.Values.{MonotonicMs}
use logik_smith.Program.{TimerName, LogicRevision}

pub data TimerAction : Type 0 where
  scheduled : (after_ms : ℕ) (due_at : MonotonicMs) → TimerAction
  replaced : (previous_due_at : MonotonicMs) (after_ms : ℕ) (due_at : MonotonicMs) → TimerAction
  cancelled : (previous_due_at : MonotonicMs) → TimerAction
  cancel_noop : TimerAction

pub record TimerEffect : Type 0 where
  pub name : TimerName
  pub action : TimerAction

pub record PendingTimer : Type 0 where
  pub name : TimerName
  pub scheduled_at : MonotonicMs
  pub due_at : MonotonicMs
  pub scheduled_logic_revision : LogicRevision

abbrev pub Timers : Type 0
Timers = BTreeMap TimerName PendingTimer

-- The body of the loop, on one effect.
unfoldable pub apply_action :
    Timers → TimerName → TimerAction → MonotonicMs → LogicRevision → Timers
apply_action pending name (scheduled after_ms due_at) now revision =
    insert name
      (record {
        name = name;
        scheduled_at = now;
        due_at = due_at;
        scheduled_logic_revision = revision;
      })
      pending
apply_action pending name (replaced previous_due_at after_ms due_at) now revision =
    insert name
      (record {
        name = name;
        scheduled_at = now;
        due_at = due_at;
        scheduled_logic_revision = revision;
      })
      pending
apply_action pending name (cancelled previous_due_at) now revision = remove name pending
apply_action pending name cancel_noop now revision = remove name pending

unfoldable pub apply_timer_effects :
    Timers → List TimerEffect → MonotonicMs → LogicRevision → Timers
apply_timer_effects pending [] now revision = pending
apply_timer_effects pending (effect ∷ effects) now revision =
    apply_timer_effects (apply_action pending effect.name effect.action now revision) effects now
      revision
