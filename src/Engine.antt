-- ===== src/Engine.antt =====
-- crates/logiksmith-core/src/engine.rs, engine_config.rs, engine_input_updates.rs, engine_model.rs:
-- the engine of one logic block. A method returns its result and the engine that it leaves.
pub mod Run
pub mod Updates
pub mod DueTimers
pub mod Activate
pub mod Handler
pub mod Safety
pub mod Scheduled
pub mod TimerOrder
pub mod Timed
pub mod Activation
pub mod Invariant
use logik_smith.Prelude.{
  ℕ, zero, suc, ◌-◌, Bool, true, false, Option, none, some, List, [], ◌∷◌, ◌++◌, ◌&&◌, ltb, ◌==◌,
  not, any, is_some, length, get_elem?, position, replicate, if◌then◌else◌, map,
}
use logik_smith.Prelude.Order.{list_ord, nat_ord, same}
use logik_smith.Prelude.Result.{Result, ok, err, ◌>>=◌, ◌>>◌, reject, map_err, ok_or}
use logik_smith.BTreeMap.{BTreeMap, values}
use logik_smith.Text.{Text}
use logik_smith.Identifiers.{EndpointName}
use logik_smith.Limits.{RuntimeLimits}
use logik_smith.Values.{
  Endpoint, EndpointDirection, is_input, Dpt, dpt_eq, is_supported, TypedValue, MonotonicMs,
}
use logik_smith.Program.{
  LogicProgram, LogicRevision, revision_for, LogicErrorKind, failed, load, revision_mismatch,
  ConfigError, too_many_endpoints, duplicate_endpoint, unsupported_endpoint_dpt, invalid_logic,
  EventError, unknown_endpoint, endpoint_not_input, dpt_mismatch, time_went_backwards,
}
use logik_smith.State.{TransientState}
use logik_smith.Timer.{Timers}
use logik_smith.Execution.{InputSnapshot}
use logik_smith.Lua.{Platform}
use logik_smith.Lua.Execute.{validate_logic_source_with_limits}

pub record EngineConfig : Type 0 where
  pub endpoints : List Endpoint
  pub logic : LogicProgram

pub record InputState : Type 0 where
  pub value : Option TypedValue
  pub observed_at : Option MonotonicMs

-- `InputState::default`
abbrev pub unknown : InputState
unknown = record { value = none; observed_at = none }

pub record Engine : Type 0 where
  pub config : EngineConfig
  pub limits : RuntimeLimits
  pub inputs : List InputState
  pub state : TransientState
  pub pending_timers : Timers
  pub last_accepted_at : Option MonotonicMs

-- The loop over the endpoints, behind those already seen.
unfoldable pub check_endpoints : List Endpoint → List Endpoint → Result ConfigError (Unit {0})
check_endpoints seen [] = ok tt
check_endpoints seen (endpoint ∷ rest) = do
  reject (any (λ other. same other.name endpoint.name) seen) (duplicate_endpoint endpoint.name)
  reject (not (is_supported endpoint.dpt)) (unsupported_endpoint_dpt endpoint.name endpoint.dpt)
  check_endpoints (seen ++ endpoint ∷ []) rest

-- `EngineConfig::validate_with_limits`
unfoldable pub validate_config :
    Platform → EngineConfig → RuntimeLimits → Result ConfigError (Unit {0})
validate_config platform config limits = do
  reject (ltb limits.max_endpoints_per_block (length config.endpoints))
      (too_many_endpoints (length config.endpoints) limits.max_endpoints_per_block)
  check_endpoints [] config.endpoints
  reject (not (config.logic.revision == revision_for config.logic.source))
      (invalid_logic (failed load revision_mismatch none))
  map_err invalid_logic (validate_logic_source_with_limits platform config.logic.source limits)

-- `Engine::try_new_with_limits`
unfoldable pub try_new : Platform → EngineConfig → RuntimeLimits → Result ConfigError Engine
try_new platform config limits = do
  validate_config platform config limits
  ok (record {
    config = config;
    limits = limits;
    inputs = replicate (length config.endpoints) unknown;
    state = [];
    pending_timers = [];
    last_accepted_at = none;
  })

-- `Engine::active_logic_revision`
abbrev pub active_logic_revision : Engine → LogicRevision
active_logic_revision engine = engine.config.logic.revision

-- The endpoint that `position` found, and its direction.
check_direction : EndpointName → Option Endpoint → ℕ → Result EventError ℕ
check_direction name none index = err (unknown_endpoint name)
check_direction name (some endpoint) index =
    if is_input endpoint.direction
    then ok index
    else err (endpoint_not_input name endpoint.direction)

unfoldable pub validate_endpoint : Engine → EndpointName → Result EventError ℕ
unfolding check_direction
validate_endpoint engine name = do
  index ←
      ok_or (position (λ endpoint. same endpoint.name name) engine.config.endpoints)
        (unknown_endpoint name)
  check_direction name (get_elem? engine.config.endpoints index) index

check_dpt : EndpointName → Option Endpoint → TypedValue → ℕ → Result EventError ℕ
check_dpt name none value index = err (unknown_endpoint name)
check_dpt name (some endpoint) value index =
    if not (dpt_eq endpoint.dpt value.dpt)
    then err (dpt_mismatch name endpoint.dpt value.dpt)
    else ok index

unfoldable pub validate_input : Engine → EndpointName → TypedValue → Result EventError ℕ
unfolding check_dpt
validate_input engine name value = do
  index ← validate_endpoint engine name
  check_dpt name (get_elem? engine.config.endpoints index) value index

-- The comparison with the last accepted time.
unfoldable pub check_time : Option MonotonicMs → MonotonicMs → Result EventError (Unit {0})
check_time none now = ok tt
check_time (some previous) now =
    if ltb now previous then err (time_went_backwards previous now) else ok tt

unfoldable pub accept_time : Engine → MonotonicMs → Result EventError Engine
unfolding check_time
accept_time engine now = check_time engine.last_accepted_at now >>= λ _.
    ok (record engine { last_accepted_at = some now })

-- `now.0.saturating_sub(observed_at.0)`
age : MonotonicMs → Option MonotonicMs → Option ℕ
age now none = none
age now (some observed_at) = some (now - observed_at)

-- The snapshots of the input endpoints, in declaration order.
unfoldable pub snapshots_of : MonotonicMs → List Endpoint → List InputState → List InputSnapshot
unfolding age
snapshots_of now [] states = []
snapshots_of now (endpoint ∷ endpoints) [] = []
snapshots_of now (endpoint ∷ endpoints) (state ∷ states) =
    let rest = snapshots_of now endpoints states in
    if is_input endpoint.direction
    then record {
      endpoint = endpoint.name;
      dpt = endpoint.dpt;
      value = state.value;
      valid = is_some state.value && is_some state.observed_at;
      age_ms = age now state.observed_at;
    }
      ∷ rest
    else rest

unfoldable pub input_snapshots : Engine → MonotonicMs → List InputSnapshot
input_snapshots engine now = snapshots_of now engine.config.endpoints engine.inputs
