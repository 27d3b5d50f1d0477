-- ===== src/Execution.antt =====
-- crates/logiksmith-core/src/state.rs and support.rs: triggers, input snapshots, transitions and
-- the record of one execution.
pub mod Edges
use logik_smith.Prelude.{
  ℕ, Bool, true, false, Option, none, some, List, [], ◌∷◌, not, ◌&&◌, if◌then◌else◌,
}
use logik_smith.Prelude.Result.{Result}
use logik_smith.Prelude.Int.{ℤ}
use logik_smith.Text.{Text}
use logik_smith.Identifiers.{EndpointName, BlockId, SignalName}
use logik_smith.Values.{
  Dpt, Value, switch, percent, temperature, TypedValue, typed_eq, OutputEffect, MonotonicMs,
}
use logik_smith.Program.{LogicRevision, LogicError, TimerName}
use logik_smith.State.{TransientState, StatePatch}
use logik_smith.Timer.{TimerEffect, PendingTimer}

pub record InputTrigger : Type 0 where
  pub endpoint : EndpointName
  pub value : TypedValue
  pub previous : Option TypedValue
  pub changed : Bool
  pub rising : Bool
  pub falling : Bool

pub record InputSnapshot : Type 0 where
  pub endpoint : EndpointName
  pub dpt : Dpt
  pub value : Option TypedValue
  pub valid : Bool
  pub age_ms : Option ℕ

pub record TimerTrigger : Type 0 where
  pub name : TimerName
  pub scheduled_at : MonotonicMs
  pub due_at : MonotonicMs
  pub fired_at : MonotonicMs
  pub scheduled_logic_revision : LogicRevision

pub data ScheduleKind : Type 0 where
  fixed interval astronomical : ScheduleKind

-- schedule_rules.rs: one due occurrence of a schedule.
pub record ScheduleTrigger : Type 0 where
  pub block_id : BlockId
  pub name : Text
  pub kind : ScheduleKind
  pub scheduled_for_utc_ms : ℤ
  pub detected_at_utc_ms : ℤ
  pub coalesced_count : ℕ
  pub structural_revision : ℕ

pub data Trigger : Type 0 where
  by_input : InputTrigger → Trigger
  by_timer : TimerTrigger → Trigger
  by_schedule : ScheduleTrigger → Trigger

pub record Transition : Type 0 where
  pub state : StatePatch
  pub outputs : List OutputEffect
  pub timers : List TimerEffect

-- blocks.rs: one endpoint in the graph of a signal, and a value produced for a signal.
pub record SignalEndpointId : Type 0 where
  pub block_id : BlockId
  pub endpoint : EndpointName

abbrev pub ExecutionId : Type 0
ExecutionId = ℕ

pub record SignalEffect : Type 0 where
  pub signal : SignalName
  pub value : TypedValue
  pub changed : Bool
  pub producer : SignalEndpointId
  pub producing_execution : Option ExecutionId
  pub consumers : List SignalEndpointId

-- The site and the instant that the time context of an execution is computed from. (The calendar
-- and solar values themselves come from packages.)
pub record SiteTimeConfig : Type 0 where
  pub timezone : Text
  pub coordinates : Option (ℕ × ℕ)

pub record TimeSample : Type 0 where
  pub site : SiteTimeConfig
  pub utc_unix_ms : Option ℤ

-- support.rs: `default_site`
abbrev pub default_site : SiteTimeConfig
default_site = record { timezone = b'U' ∷ b'T' ∷ b'C' ∷ []; coordinates = none }

pub record Execution : Type 0 where
  pub id : Option ExecutionId
  pub causal_producer : Option ExecutionId
  pub logic_revision : LogicRevision
  pub trigger : Trigger
  pub inputs : List InputSnapshot
  pub state_before : TransientState
  pub state_after : TransientState
  pub pending_timers : List PendingTimer
  pub outcome : Result LogicError Transition
  pub signal_effects : List SignalEffect
  pub eligible_consumers : List SignalEndpointId
  pub time_context : TimeSample

-- `Execution::with_now`
unfoldable pub with_now :
    LogicRevision
    → Trigger
    → List InputSnapshot
    → TransientState
    → TransientState
    → List PendingTimer
    → Result LogicError Transition
    → TimeSample
    → Execution
with_now revision trigger inputs before after timers outcome time = record {
  id = none;
  causal_producer = none;
  logic_revision = revision;
  trigger = trigger;
  inputs = inputs;
  state_before = before;
  state_after = after;
  pending_timers = timers;
  outcome = outcome;
  signal_effects = [];
  eligible_consumers = [];
  time_context = time;
}

-- `Execution::set_runtime_metadata` and `Execution::set_signal_metadata`
unfoldable pub set_runtime_metadata : Execution → ExecutionId → Option ExecutionId → Execution
set_runtime_metadata e id causal = record e { id = some id; causal_producer = causal }

unfoldable pub set_signal_metadata :
    Execution → List SignalEffect → List SignalEndpointId → Execution
set_signal_metadata e effects consumers = record e {
  signal_effects = effects;
  eligible_consumers = consumers;
}

-- `previous.is_some_and(|previous| previous != value)`
differs : Option TypedValue → TypedValue → Bool
differs none value = false
differs (some previous) value = not (typed_eq previous value)

-- The pattern `(Some(Value::Bool(from)), Value::Bool(to))`.
is_edge : Bool → Bool → Option TypedValue → Value → Bool
is_edge from to none value = false
is_edge from to (some previous) (percent p) = false
is_edge from to (some previous) (temperature t) = false
is_edge from to (some previous) (switch b) = elim previous.value [
  | switch a ↦ (if a then from else not from) && (if b then to else not to)
  | percent p ↦ false
  | temperature t ↦ false
]

-- support.rs: `input_trigger`
unfoldable pub input_trigger : EndpointName → TypedValue → Option TypedValue → InputTrigger
unfolding differs is_edge
input_trigger endpoint value previous = record {
  endpoint = endpoint;
  value = value;
  previous = previous;
  changed = differs previous value;
  rising = is_edge false true previous value.value;
  falling = is_edge true false previous value.value;
}
