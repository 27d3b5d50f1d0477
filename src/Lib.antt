-- ===== src/Lib.antt =====
-- The verification library of LogikSmith's core (crates/logiksmith-core/src): the deterministic engine
-- that runs a Lua handler on the inputs of a logic block, and the runtime that connects blocks by
-- signals.
--
-- How the parts interact. A host delivers an input update to the runtime, which finds the block,
-- validates the update, admits a live execution within the block's rate limit, and hands the update to
-- the block's engine. The engine accepts the time, stores the value, and runs the handler through the
-- Lua boundary, which turns the returned table into a transition: a state patch, output values and
-- timer effects, each checked against the limits. The engine commits the transition; the runtime
-- records the outcome in the block's health, publishes the outputs as signal values and runs the
-- blocks that consume them, depth first. An error of the cascade, but for its two limits, rolls the turn
-- back to its checkpoint; an error of the root of a timer or schedule turn is returned with what the
-- root left.
--
-- Files, with the source files under crates/logiksmith-core/src that they model:
-- - Prelude and its children: shared lists, results, orders and `Iterator::min_by`; BTreeMap: the
--   standard library's sorted map; Text: strings as code points with their UTF-8 bytes.
-- - Identifiers (identifiers.rs), Limits (limits.rs), Values (values.rs), Program (program.rs).
-- - State (state.rs: validation and merge), Timer (state.rs: timer effects), Execution (state.rs,
--   support.rs: triggers, snapshots, the record of an execution).
-- - Lua (lua_conversion.rs, lua_execution.rs, lua_sandbox.rs): `Convert`, `Outputs` and `Timers` are
--   the parts of `convert_result` and `convert_timers`, `Execute` is `execute_logic`.
-- - Engine (engine.rs, engine_config.rs, engine_input_updates.rs, engine_model.rs): `Run` is the common
--   handler call and commit, `Updates` the input updates, `DueTimers` the firing of timers, `Activate`
--   the swap of a program; `Invariant`, `Handler`, `Safety`, `TimerOrder`, `Timed`, `Scheduled`
--   and `Activation` hold the proofs.
-- - Schedules (schedule_rules.rs, schedule.rs, schedule_astronomy.rs): the rules of a block's schedules and
--   `next_occurrence_after`. Noaa (noaa.rs): day numbers and civil dates.
-- - Block (runtime_model.rs, block_health.rs, blocks.rs): health and admission of one block.
-- - Runtime (runtime_model.rs, runtime_impl.rs, runtime_signals.rs, runtime_input_updates.rs,
--   runtime_time_helpers.rs): `Input` is one update without its cascade, `Signals` and `Propagate` are
--   `propagate_from_execution`, `Cascades` the turn with its checkpoint, `Activation` the batch
--   activation of sources and switches (runtime_activation.rs), `DueTimers` the turn of the due timer
--   that is first over all blocks, `Schedules` the cursors, the poll, the turns and the status
--   view of schedules (runtime_impl.rs, runtime_time_helpers.rs).
-- - Config (blocks.rs): the validation of a configuration; `Graph` is the search for a cycle of signals
--   and the size of a cascade, `Wiring` and `Consumers` say which edges the graph has, and
--   `Construct` builds a runtime (runtime_impl.rs, runtime_model.rs).
-- - Examples: concrete runtimes and configurations, and the theorems at concrete inputs.
--
-- Conventions. Equality that the source derives is structural, and has no code of its own. A method that mutates `self` returns its result and the value that it leaves, also on
-- an error. A panic of an `expect`, an index or a lookup is the error `panicked`. Numbers are natural
-- numbers with the saturation or wrap-around of their machine width written out. Text that the source
-- formats for an error is a constructor with the values that it prints. Variants of a method that
-- differ in the wall clock and the budget probe are one definition with these as arguments.
--
-- Bounds and fuel. `propagate_from_execution` recurses on fuel for its depth. Every recursive call
-- follows the start of one execution more, and their number is limited, so that the limit itself is
-- fuel enough; running out is an error of its own, which a theorem excludes. A coalescing poll steps to a
-- later millisecond each time, so that the distance to the clock is its fuel, unless the
-- clock stands at the last instant of an `i64`, where an interval rule saturates and the loop of the
-- source has no end. The search for a cycle and `cascade_size` go along paths without repetition, for
-- which one more than the number of blocks is enough.
--
-- Parameters. The Lua interpreter is `Platform`: loading a source, and calling its handler, which may
-- return anything. Operations on floats are the record `Float`. The readings of the host's clock are
-- functions. The calendar and solar values of the time context are computed by packages; the model
-- keeps the site and the instant they are computed from. For schedules, the time zone package and the
-- crossings of the sun are the record `Calendar`.
--
-- Not modelled: the snapshots of the runtime, the time context of a handler, and simulation; the solar
-- position, which is a floating-point formula; the desktop host, the web interface and the firmware,
-- which are input and output around the core.
pub mod Prelude
pub mod BTreeMap
pub mod Text
pub mod Identifiers
pub mod Limits
pub mod Values
pub mod Program
pub mod State
pub mod Timer
pub mod Execution
pub mod Lua
pub mod Engine
pub mod Noaa
pub mod Schedules
pub mod Block
pub mod Runtime
pub mod Config
pub mod Examples
