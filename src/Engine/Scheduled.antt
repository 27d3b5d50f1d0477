-- ===== src/Engine/Scheduled.antt =====
-- The handler call of a schedule trigger, on a safe engine.
use logik_smith.Prelude.{◌≡◌, Option}
use logik_smith.Prelude.Result.{ok}
use logik_smith.Values.{MonotonicMs}
use logik_smith.Execution.{ScheduleTrigger, by_schedule, Execution, TimeSample}
use logik_smith.Lua.{Platform, Probe}
use logik_smith.Engine.{Engine}
use logik_smith.Engine.Run.{process_schedule_trigger}
use logik_smith.Engine.Invariant.{IsSafe}
use logik_smith.Engine.Handler.{Sound, run_handler-Sound}
use logik_smith.Engine.Timed.{run_handler_total}

-- From a safe engine a schedule trigger leaves a safe engine and does not panic, and configuration and
-- limits stay; the call always yields an execution, whatever the handler did.
pub process_schedule_trigger-Sound :
    (platform : Platform) (engine : Engine) (trigger : ScheduleTrigger) (time : TimeSample)
    (now : MonotonicMs) (probe : Option Probe)
    → IsSafe engine
    → Sound engine now (process_schedule_trigger platform engine trigger time now probe)
      × ((execution : Execution) × ((process_schedule_trigger platform engine trigger time now
              probe).0
            ≡ ok execution))
unfolding process_schedule_trigger
process_schedule_trigger-Sound platform engine trigger time now probe s = (
  run_handler-Sound platform engine now time (by_schedule trigger) probe s,
  run_handler_total platform engine now time probe (by_schedule trigger) s,
)
