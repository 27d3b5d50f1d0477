-- ===== src/Runtime/Schedules.antt =====
-- crates/logiksmith-core/src/runtime_impl.rs and runtime_time_helpers.rs: the schedule cursors of the
-- runtime, and their baselines.
pub mod Poll
pub mod Coalesce
pub mod Delivery
pub mod Advance
pub mod Step
pub mod Rebase
pub mod Once
pub mod History
pub mod Settled
pub mod Due
pub mod Turn
pub mod Baseline
pub mod Status
use logik_smith.Prelude.{
  ℕ, zero, suc, ◌+◌, ◌-◌, Bool, true, false, Option, none, some, List, [], ◌∷◌, ◌++◌, map, any,
  find, keep, flat_map, length, ltb, Ordering, compare, unwrap_or, if◌then◌else◌,
}
use logik_smith.Prelude.Int.{ℤ, pos, pos_part, neg_part, ◌-ℤ◌, ltb_ℤ, leb_ℤ}
use logik_smith.Prelude.Order.{list_ord, nat_ord, pair_ord, same, then_with}
use logik_smith.Prelude.Result.{Result, ok, err, ◌>>=◌, ok_or}
use logik_smith.BTreeMap.{BTreeMap, get, insert}
use logik_smith.Identifiers.{BlockId}
use logik_smith.Values.{MonotonicMs}
use logik_smith.Execution.{SiteTimeConfig, ScheduleTrigger}
use logik_smith.Schedules.{
  ScheduleName, ScheduleRule, BlockSchedule, ScheduleCursor, ScheduleError, unknown_schedule,
  rule_kind,
}
use logik_smith.Schedules.Solar.{Calendar}
use logik_smith.Schedules.Occurrence.{next_occurrence_after, next_occurrence_after_not_before}
use logik_smith.Block.{LogicBlock}
use logik_smith.Runtime.{Runtime, ClockSample}

pub data TimeError : Type 0 where
  clock_unavailable : TimeError
  monotonic_went_backwards : (previous current : MonotonicMs) → TimeError
  unknown_block_id : BlockId → TimeError

abbrev pub Key : Type 0
Key = BlockId × ScheduleName

abbrev pub Cursors : Type 0
Cursors = BTreeMap Key ScheduleCursor

-- A schedule with the ID of its block
abbrev pub Entry : Type 0
Entry = BlockId × BlockSchedule

abbrev pub key_of : Entry → Key
key_of entry = (entry.0, entry.1.name)

unfoldable pub check_sample : Option MonotonicMs → MonotonicMs → Result TimeError (Unit {0})
check_sample none now = ok tt
check_sample (some previous) now =
    if ltb now previous then err (monotonic_went_backwards previous now) else ok tt

-- `ensure_schedule_time`
unfoldable pub ensure_schedule_time : Runtime → MonotonicMs → Result TimeError (Unit {0})
unfolding check_sample
ensure_schedule_time runtime now = check_sample runtime.last_accepted_at now

unfoldable pub entries_of : LogicBlock → List Entry
entries_of block = map (λ s. (block.config.id, s)) block.config.schedules

-- Every configured schedule, in block and declaration order
unfoldable pub all_entries : List LogicBlock → List Entry
unfolding entries_of
all_entries blocks = flat_map entries_of blocks

-- The enabled schedules of the enabled blocks
unfoldable pub live_entries : List LogicBlock → List Entry
unfolding entries_of
live_entries blocks =
    flat_map
      (λ block. if block.config.enabled then keep (λ e. e.1.enabled) (entries_of block) else [])
      blocks

-- The cursor that `entry(key).or_insert_with(..)` makes
unfoldable pub fresh_cursor : ℕ → ScheduleCursor
fresh_cursor revision = record {
  last_delivered_utc_ms = none;
  next_occurrence_utc_ms = none;
  structural_revision = revision;
  needs_rebaseline = true;
}

unfoldable pub cursor_or_fresh : ℕ → Key → Cursors → ScheduleCursor
cursor_or_fresh revision key cursors = unwrap_or (get key cursors) (fresh_cursor revision)

-- `schedule_structural_revision.unwrap_or(0)`
abbrev pub current_revision : Runtime → ℕ
current_revision runtime = unwrap_or runtime.schedule_structural_revision 0

-- The cursors without a next occurrence, marked for a baseline
unfoldable pub mark : ScheduleCursor → ScheduleCursor
mark cursor = record cursor { next_occurrence_utc_ms = none; needs_rebaseline = true }

unfoldable pub mark_all : Cursors → Cursors
unfolding mark
mark_all cursors = map (λ e. (e.0, mark e.1)) cursors

-- The marks that an activation leaves, on the cursors of one block
unfoldable pub mark_block : BlockId → Cursors → Cursors
unfolding mark
mark_block id cursors = map (λ e. (e.0, if same e.0.0 id then mark e.1 else e.1)) cursors

module _ (calendar : Calendar) (site : SiteTimeConfig) where
  -- A cursor with a future-only baseline at `utc`
  unfoldable pub rebaselined : ScheduleRule → ℤ → ScheduleCursor → ScheduleCursor
  rebaselined rule utc cursor = record cursor {
    next_occurrence_utc_ms =
        next_occurrence_after_not_before calendar rule site utc cursor.last_delivered_utc_ms;
    needs_rebaseline = false;
  }

  -- The loop of `recompute_schedule_cursors`
  unfoldable pub recompute : ℕ → ℤ → List Entry → Cursors → Cursors
  unfolding rebaselined
  recompute revision utc [] cursors = cursors
  recompute revision utc (entry ∷ entries) cursors =
      let cursor = cursor_or_fresh revision (key_of entry) cursors in
      recompute revision utc entries (
        insert (key_of entry)
          (rebaselined entry.1.rule utc (record cursor { structural_revision = revision })) cursors)

-- The clock stepped back, or was not valid before.
unfoldable pub needs_recompute : Option ℤ → ℤ → Bool
needs_recompute none now = true
needs_recompute (some previous) now = ltb_ℤ now previous

module _ (calendar : Calendar) where
  -- `recompute_schedule_cursors`
  unfoldable pub recompute_schedule_cursors : Runtime → ℤ → Cursors
  unfolding recompute
  recompute_schedule_cursors runtime utc =
      recompute calendar runtime.site (current_revision runtime) utc (all_entries runtime.blocks)
        runtime.schedule_cursors

  -- The cursors that the loop of the poll starts from
  unfoldable pub baseline_cursors : Runtime → ℤ → Cursors
  unfolding recompute_schedule_cursors
  baseline_cursors runtime now =
      if needs_recompute runtime.last_schedule_wall_clock_utc_ms now
      then recompute_schedule_cursors runtime now
      else runtime.schedule_cursors
