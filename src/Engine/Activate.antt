-- ===== src/Engine/Activate.antt =====
-- crates/logiksmith-core/src/engine.rs: replacing the source of an engine, and engine_model.rs.
use logik_smith.Prelude.{
  Bool, true, false, Option, none, some, List, [], ◌∷◌, ◌==◌, not, if◌then◌else◌, map, min,
}
use logik_smith.Prelude.Result.{Result, ok, err}
use logik_smith.BTreeMap.{keys, values}
use logik_smith.Text.{Text}
use logik_smith.Limits.{RuntimeLimits}
use logik_smith.Values.{MonotonicMs}
use logik_smith.Program.{
  LogicError, LogicRevision, LogicProgram, new_program, failed, load, revision_mismatch, TimerName,
}
use logik_smith.Lua.{Platform}
use logik_smith.Lua.Execute.{validate_logic_source_with_limits}
use logik_smith.Engine.{Engine, active_logic_revision}

pub record SourceActivation : Type 0 where
  pub logic_revision : LogicRevision
  pub cancelled_timers : List TimerName
  pub changed : Bool

-- `LogicProgram::try_new_with_limits`
unfoldable pub try_new_program : Platform → Text → RuntimeLimits → Result LogicError LogicProgram
try_new_program platform source limits =
    elim (validate_logic_source_with_limits platform source limits) [
      | err e ↦ err e
      | ok _ ↦ ok (new_program source)
    ]

-- The swap of the program, which cancels every pending timer.
unfoldable pub install : Engine → LogicProgram → Engine
install engine program = record engine {
  config = record engine.config { logic = program };
  pending_timers = [];
}

-- `Engine::activate_source`
unfoldable pub activate_source :
    Platform → Engine → Text → Result LogicError SourceActivation × Engine
unfolding install
activate_source platform engine source = elim (try_new_program platform source engine.limits) [
  | err e ↦ (err e, engine)
  | ok program ↦
      if program.revision == active_logic_revision engine
      then (
        ok (record { logic_revision = program.revision; cancelled_timers = []; changed = false }),
        engine,
      )
      else (
        ok (record {
          logic_revision = program.revision;
          cancelled_timers = keys engine.pending_timers;
          changed = true;
        }),
        install engine program,
      )
]

-- `Engine::replace_logic`
unfoldable pub replace_logic :
    Platform → Engine → Text → LogicRevision → Result LogicError (Unit {0}) × Engine
unfolding install
replace_logic platform engine source revision =
    elim (try_new_program platform source engine.limits) [
      | err e ↦ (err e, engine)
      | ok program ↦
          if not (program.revision == revision)
          then (err (failed load revision_mismatch none), engine)
          else if not (program.revision == active_logic_revision engine)
          then (ok tt, install engine program)
          else (ok tt, engine)
    ]

-- The least of a list of times.
unfoldable pub least : Option MonotonicMs → List MonotonicMs → Option MonotonicMs
least best [] = best
least none (t ∷ ts) = least (some t) ts
least (some b) (t ∷ ts) = least (some (min b t)) ts

-- `Engine::next_timer_deadline`
unfoldable pub next_timer_deadline : Engine → Option MonotonicMs
unfolding least
next_timer_deadline engine = least none (map (λ t. t.due_at) (values engine.pending_timers))
