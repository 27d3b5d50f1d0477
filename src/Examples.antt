-- ===== src/Examples.antt =====
-- A concrete runtime of one block, and the theorems applied to it.
use logik_smith.Prelude.{
  ℕ, zero, suc, ◌+◌, ◌-◌, ◌^◌, ◌≤◌, ◌<◌, ◌≡◌, ◌↔◌, refl, Bool, true, false, Option, none, some,
  List, [], ◌∷◌, All, arith, inl, inr, ◌⊎◌, leb,
}
use logik_smith.Prelude.Result.{Result, ok, err}
use logik_smith.Prelude.Int.{ℤ, pos, negsuc}
use logik_smith.Text.{Text}
use logik_smith.Limits.{RuntimeLimits, limits, desktop_profile}
use logik_smith.Values.{
  Endpoint, input, output, Dpt, dpt_bool, dpt_percent, Value, switch, percent, TypedValue,
  typed_bool, Float, InputUpdate, trigger, MonotonicMs, new_typed_value, OutputEffect, typed_eq,
}
use logik_smith.Program.{LogicProgram, failed, runtime, panicked, EventError}
use logik_smith.State.{TransientState, StateValue, validate_state_map_with_limits, total_bytes}
use logik_smith.Timer.{PendingTimer, Timers, TimerEffect, scheduled, cancelled}
use logik_smith.Execution.{TimeSample, default_site, Transition}
use logik_smith.Lua.{LuaValue, LuaTable, end, pair, Platform}
use logik_smith.Engine.{Engine, accept_time, check_time}
use logik_smith.Engine.Invariant.{IsSafe}
use logik_smith.Block.{LogicBlock, active, is_active, disabled}
use logik_smith.Block.Health.{IsSteady}
use logik_smith.Runtime.{Runtime, SignalState, BudgetClock}
pub mod Witnesses
pub mod Schedules
pub mod Wired
pub mod Dates

abbrev pub button : Text
button = b'i' ∷ []

abbrev pub lamp : Text
lamp = b'o' ∷ []

abbrev pub delay : Text
delay = b't' ∷ []

abbrev pub source : Text
source = b'x' ∷ []

abbrev pub desktop_limits : RuntimeLimits
desktop_limits = limits desktop_profile

-- Operations on floats for which whole numbers stand: enough for sources without floats.
abbrev pub whole_floats : Float
whole_floats = record {
  times_100 = λ x. x;
  round = λ x. x;
  minus = λ x y. x - y;
  abs = λ x. x;
  above_tolerance = λ x. false;
  below_i32 = λ x. false;
  above_i32 = λ x. false;
  to_i32 = λ x. pos x;
  of_i64 = λ i. 0;
  is_whole_u32 = λ x. true;
  to_u32 = λ x. x;
}

abbrev pub text_key : Text → LuaValue
text_key t = LuaValue.string t

-- `{ outputs = { o = true } }`
abbrev pub lamp_on : LuaValue
lamp_on = LuaValue.table (
    pair (text_key (b'o' ∷ b'u' ∷ b't' ∷ b'p' ∷ b'u' ∷ b't' ∷ b's' ∷ []))
      (LuaValue.table (pair (text_key lamp) (LuaValue.boolean true) end)) end)

-- A program whose handler always switches the lamp on.
abbrev pub platform : Platform
platform = record {
  float = whole_floats;
  load_source = λ text l. ok tt;
  call_handle = λ text snapshots cause state now time l probe. ok (lamp_on ∷ []);
}

abbrev pub endpoints : List Endpoint
endpoints =
    record { name = button; direction = input; dpt = dpt_bool }
    ∷ record { name = lamp; direction = output; dpt = dpt_bool }
    ∷ []

abbrev pub program : LogicProgram
program = record { source = source; revision = 7 }

abbrev pub pending : Timers
pending =
    (delay, record { name = delay; scheduled_at = 0; due_at = 100; scheduled_logic_revision = 7 })
    ∷ []

abbrev pub engine : Engine
engine = record {
  config = record { endpoints = endpoints; logic = program };
  limits = desktop_limits;
  inputs =
      record { value = none; observed_at = none }
      ∷ record { value = none; observed_at = none }
      ∷ [];
  state = [];
  pending_timers = pending;
  last_accepted_at = some 10;
}

abbrev pub time : TimeSample
time = record { site = default_site; utc_unix_ms = none }

pub empty_state_valid : validate_state_map_with_limits [] desktop_limits ≡ ok tt
unfolding validate_state_map_with_limits total_bytes
empty_state_valid = refl

pub engine-IsSafe : IsSafe engine
engine-IsSafe = record {
  inputs_fit = (tt, (tt, tt));
  state_valid = empty_state_valid;
  timers_bound = omega arith;
  of_revision = ((refl, refl), tt);
}

abbrev pub block : LogicBlock
block = record {
  config = record {
    id = b'b' ∷ [];
    enabled = true;
    endpoints = endpoints;
    logic = program;
    schedules = [];
    signal_bindings = record { endpoint = lamp; signal = lamp } ∷ [];
  };
  engine = engine;
  health = active;
  consecutive_failures = 4;
  live_execution_times = 5 ∷ 9 ∷ [];
  last_suspension = none;
}

pub block-IsSteady : IsSteady 128 block
unfolding is_active
block-IsSteady = record {
  safe = engine-IsSafe;
  switch = refl;
  quiet = inl refl;
  failures = inr (omega arith);
  rate = omega arith;
  ordered = ((omega arith, tt), (tt, tt));
}

abbrev pub lamp_signal : SignalState
lamp_signal = record {
  config = record { name = lamp; dpt = dpt_bool };
  value = none;
  observed_at = none;
  changed_at = none;
  producer = some (record { block_id = b'b' ∷ []; endpoint = lamp });
  producing_execution = none;
  consumers = record { block_id = b'b' ∷ []; endpoint = button } ∷ [];
}

abbrev pub feedback : Runtime
feedback = record {
  limits = desktop_limits;
  blocks = block ∷ [];
  signals = lamp_signal ∷ [];
  signal_indexes = (lamp, 0) ∷ [];
  last_accepted_at = some 10;
  next_execution_id = 1;
  site = default_site;
  schedule_cursors = [];
  schedule_structural_revision = none;
  last_schedule_wall_clock_utc_ms = none;
}
