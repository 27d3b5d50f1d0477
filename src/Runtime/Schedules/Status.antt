-- ===== src/Runtime/Schedules/Status.antt =====
-- crates/logiksmith-core/src/runtime_impl.rs: `schedule_statuses`, the status view of the schedules.
use logik_smith.Prelude.{
  Bool, Option, none, some, List, flat_map, map, ◌&&◌, not, is_some, if◌then◌else◌,
}
use logik_smith.Prelude.Int.{ℤ}
use logik_smith.Prelude.Order.{list_ord, nat_ord, pair_ord}
use logik_smith.BTreeMap.{get}
use logik_smith.Identifiers.{BlockId}
use logik_smith.Schedules.{ScheduleName, BlockSchedule, ScheduleCursor}
use logik_smith.Block.{LogicBlock}
use logik_smith.Runtime.{Runtime}
use logik_smith.Runtime.Schedules.{Cursors}

-- The reason of the third is one fixed text.
pub data ScheduleStatusKind : Type 0 where
  active paused unavailable clock_error : ScheduleStatusKind

pub record ScheduleStatus : Type 0 where
  pub block_id : BlockId
  pub name : ScheduleName
  pub enabled : Bool
  pub status : ScheduleStatusKind
  pub next_occurrence_utc_ms : Option ℤ

-- From the cursor of the schedule, if there is one
unfoldable pub cursor_status : Option ScheduleCursor → ScheduleStatusKind × Option ℤ
cursor_status none = (paused, none)
cursor_status (some cursor) = elim cursor.next_occurrence_utc_ms [
  | some next ↦ (active, some next)
  | none ↦ (unavailable, none)
]

unfoldable pub status_of : Cursors → Option ℤ → LogicBlock → BlockSchedule → ScheduleStatus
unfolding cursor_status
status_of cursors now block schedule =
    let enabled = schedule.enabled && block.config.enabled in
    let status =
      if not enabled
      then (paused, none)
      else if not (is_some now)
      then (clock_error, none)
      else cursor_status (get (block.config.id, schedule.name) cursors) in
    record {
      block_id = block.config.id;
      name = schedule.name;
      enabled = enabled;
      status = status.0;
      next_occurrence_utc_ms = status.1;
    }

unfoldable pub schedule_statuses : Runtime → Option ℤ → List ScheduleStatus
unfolding status_of
schedule_statuses runtime now =
    flat_map (λ block. map (status_of runtime.schedule_cursors now block) block.config.schedules)
      runtime.blocks
