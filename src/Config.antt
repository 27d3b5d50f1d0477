-- ===== src/Config.antt =====
-- crates/logiksmith-core/src/blocks.rs: the configuration of the blocks and signals of a runtime, and its
-- validation.
pub mod Graph
pub mod Wiring
pub mod Consumers
pub mod Accepted
pub mod Validation
pub mod Sound
pub mod Construct
use logik_smith.Prelude.{
  ℕ, suc, ◌+◌, ◌-◌, ◌^◌, ◌≡◌, Bool, true, false, Option, none, some, List, [], ◌∷◌, ◌++◌, ◌&&◌, any,
  find, map, flat_map, length, sum_by, min, ltb, not, is_some, unwrap_or, if◌then◌else◌,
}
use logik_smith.Prelude.Order.{list_ord, nat_ord, same}
use logik_smith.Prelude.Result.{Result, ok, err, ◌>>=◌, ◌>>◌, reject, map_err, ok_or}
use logik_smith.BTreeMap.{BTreeMap, get, insert}
use logik_smith.Text.{byte_len}
use logik_smith.Identifiers.{BlockId, EndpointName, SignalName}
use logik_smith.Limits.{RuntimeLimits}
use logik_smith.Values.{Dpt, Endpoint, EndpointDirection, is_input, is_supported, dpt_eq}
use logik_smith.Program.{ConfigError}
use logik_smith.Execution.{SiteTimeConfig, SignalEndpointId}
use logik_smith.Schedules.{ScheduleName, BlockSchedule, ScheduleError, validate_rule}
use logik_smith.Lua.{Platform}
use logik_smith.Engine.{validate_config}
use logik_smith.Block.{BlockConfig, SignalBinding}
use logik_smith.Runtime.{SignalConfig}
use logik_smith.Config.Graph.{Edges, SearchError, cycle, children, detect_signal_cycle}
use logik_smith.Config.Graph.Size.{largest_cascade}

pub record RuntimeConfig : Type 0 where
  pub blocks : List BlockConfig
  pub signals : List SignalConfig
  pub site : SiteTimeConfig

pub data BlockConfigError : Type 0 where
  too_many_endpoints : (actual maximum : ℕ) → BlockConfigError
  logic_source_too_large : (actual maximum : ℕ) → BlockConfigError
  too_many_schedules : (actual maximum : ℕ) → BlockConfigError
  duplicate_schedule : ScheduleName → BlockConfigError
  invalid_schedule : ScheduleName → ScheduleError → BlockConfigError
  duplicate_signal_binding : EndpointName → BlockConfigError
  unknown_signal_binding_endpoint : EndpointName → BlockConfigError
  engine : ConfigError → BlockConfigError

-- `no_blocks` is `Empty`, and `cascade_too_large` is `CascadeLimit`. The last two are no constructors of
-- the source: the panic of an `expect`, and a search that the
-- model cut short.
pub data RuntimeConfigError : Type 0 where
  no_blocks : RuntimeConfigError
  too_many : (actual maximum : ℕ) → RuntimeConfigError
  duplicate_id : BlockId → RuntimeConfigError
  too_many_signals : (actual maximum : ℕ) → RuntimeConfigError
  duplicate_signal : SignalName → RuntimeConfigError
  unsupported_signal_dpt : SignalName → Dpt → RuntimeConfigError
  too_many_signal_bindings : (actual maximum : ℕ) → RuntimeConfigError
  too_much_logic_source : (actual maximum : ℕ) → RuntimeConfigError
  cascade_too_large : (actual maximum : ℕ) → RuntimeConfigError
  unknown_signal : BlockId → EndpointName → SignalName → RuntimeConfigError
  signal_dpt_mismatch :
      BlockId → EndpointName → SignalName → (expected actual : Dpt) → RuntimeConfigError
  duplicate_signal_producer :
      SignalName → (previous duplicate : SignalEndpointId) → RuntimeConfigError
  signal_cycle : List BlockId → RuntimeConfigError
  invalid_block : BlockId → BlockConfigError → RuntimeConfigError
  missing_endpoint : RuntimeConfigError
  search_cut_short : RuntimeConfigError

-- The loop over the schedules, behind those before them
unfoldable pub check_schedules :
    Bool → List BlockSchedule → List BlockSchedule → Result BlockConfigError (Unit {0})
check_schedules astronomy before [] = ok tt
check_schedules astronomy before (schedule ∷ rest) = do
  reject (any (λ other. same other.name schedule.name) before) (duplicate_schedule schedule.name)
  map_err (invalid_schedule schedule.name) (validate_rule astronomy schedule.rule)
  check_schedules astronomy (before ++ schedule ∷ []) rest

-- `iter().find(|endpoint| endpoint.name == name)`
abbrev pub find_endpoint : List Endpoint → EndpointName → Option Endpoint
find_endpoint endpoints name = find (λ endpoint. same endpoint.name name) endpoints

unfoldable pub check_bindings :
    List Endpoint → List SignalBinding → List SignalBinding → Result BlockConfigError (Unit {0})
check_bindings endpoints before [] = ok tt
check_bindings endpoints before (binding ∷ rest) = do
  reject (any (λ other. same other.endpoint binding.endpoint) before)
      (duplicate_signal_binding binding.endpoint)
  reject (not (is_some (find_endpoint endpoints binding.endpoint)))
      (unknown_signal_binding_endpoint binding.endpoint)
  check_bindings endpoints (before ++ binding ∷ []) rest

-- `BlockConfig::validate_with_limits`; the flag is the feature `astronomy` of the build.
unfoldable pub validate_block :
    Platform → Bool → BlockConfig → RuntimeLimits → Result BlockConfigError (Unit {0})
unfolding check_schedules check_bindings
validate_block platform astronomy config limits = do
  reject (ltb limits.max_endpoints_per_block (length config.endpoints))
      (too_many_endpoints (length config.endpoints) limits.max_endpoints_per_block)
  reject (ltb limits.max_logic_source_bytes_per_block (byte_len config.logic.source)) (
      logic_source_too_large (byte_len config.logic.source) limits.max_logic_source_bytes_per_block)
  reject (ltb limits.max_schedules_per_block (length config.schedules))
      (too_many_schedules (length config.schedules) limits.max_schedules_per_block)
  check_schedules astronomy [] config.schedules
  check_bindings config.endpoints [] config.signal_bindings
  map_err engine (
      validate_config platform (record { endpoints = config.endpoints; logic = config.logic })
        limits)

-- The loop over the signals, behind those before them
unfoldable pub check_signals :
    List SignalConfig → List SignalConfig → Result RuntimeConfigError (Unit {0})
check_signals before [] = ok tt
check_signals before (signal ∷ rest) = do
  reject (any (λ other. same other.name signal.name) before) (duplicate_signal signal.name)
  reject (not (is_supported signal.dpt)) (unsupported_signal_dpt signal.name signal.dpt)
  check_signals (before ++ signal ∷ []) rest

unfoldable pub check_blocks :
    Platform
    → Bool
    → RuntimeLimits
    → List BlockConfig
    → List BlockConfig
    → Result RuntimeConfigError (Unit {0})
unfolding validate_block
check_blocks platform astronomy limits before [] = ok tt
check_blocks platform astronomy limits before (block ∷ rest) = do
  reject (any (λ other. same other.id block.id) before) (duplicate_id block.id)
  map_err (invalid_block block.id) (validate_block platform astronomy block limits)
  check_blocks platform astronomy limits (before ++ block ∷ []) rest

-- A signal binding with its block
abbrev pub Binding : Type 0
Binding = BlockConfig × SignalBinding

-- The two nested loops over the blocks and their bindings
unfoldable pub bindings_of : List BlockConfig → List Binding
bindings_of blocks =
    flat_map (λ block. map (λ binding. (block, binding)) block.signal_bindings) blocks

abbrev pub endpoint_of : Binding → Option Endpoint
endpoint_of binding = find_endpoint binding.0.endpoints binding.1.endpoint

abbrev pub Producers : Type 0
Producers = BTreeMap SignalName SignalEndpointId

-- `producers.insert(..)`, which refuses a second producer
unfoldable pub add_producer :
    SignalName → SignalEndpointId → Producers → Result RuntimeConfigError Producers
add_producer signal identity producers = elim (get signal producers) [
  | none ↦ ok (insert signal identity producers)
  | some previous ↦ err (duplicate_signal_producer signal previous identity)
]

-- The identity of the endpoint, which has the name in the binding
abbrev pub identity_of : Binding → SignalEndpointId
identity_of binding = record { block_id = binding.0.id; endpoint = binding.1.endpoint }

-- The body of the first loop over the bindings
unfoldable pub check_binding :
    List SignalConfig → Binding → Producers → Result RuntimeConfigError Producers
unfolding add_producer
check_binding signals binding producers = do
  signal ←
      ok_or (find (λ signal. same signal.name binding.1.signal) signals)
        (unknown_signal binding.0.id binding.1.endpoint binding.1.signal)
  endpoint ← ok_or (endpoint_of binding) missing_endpoint
  reject (not (dpt_eq endpoint.dpt signal.dpt))
      (signal_dpt_mismatch binding.0.id endpoint.name signal.name endpoint.dpt signal.dpt)
  if is_input endpoint.direction
      then ok producers
      else add_producer binding.1.signal (identity_of binding) producers

unfoldable pub collect_producers :
    List SignalConfig → List Binding → Producers → Result RuntimeConfigError Producers
unfolding check_binding
collect_producers signals [] producers = ok producers
collect_producers signals (binding ∷ rest) producers =
    check_binding signals binding producers >>= λ after. collect_producers signals rest after

-- Whether a binding is of an input endpoint
abbrev pub is_consumer : Option Endpoint → Bool
is_consumer none = false
is_consumer (some endpoint) = is_input endpoint.direction

-- `edges.entry(producer).or_default().push(block)`
unfoldable pub push_edge : BlockId → BlockId → Edges → Edges
push_edge producer block edges = insert producer (children edges producer ++ block ∷ []) edges

-- The body of the second loop; every endpoint was found by the first.
unfoldable pub add_edge : Producers → Binding → Edges → Edges
unfolding push_edge
add_edge producers binding edges = elim (get binding.1.signal producers) [
  | none ↦ edges
  | some producer ↦
      if is_consumer (endpoint_of binding)
      then push_edge producer.block_id binding.0.id edges
      else edges
]

unfoldable pub collect_edges : Producers → List Binding → Edges → Edges
unfolding add_edge
collect_edges producers [] edges = edges
collect_edges producers (binding ∷ rest) edges =
    collect_edges producers rest (add_edge producers binding edges)

abbrev pub ids_of : List BlockConfig → List BlockId
ids_of blocks = map (λ block. block.id) blocks

abbrev pub of_search : SearchError → RuntimeConfigError
of_search (cycle path) = signal_cycle path
of_search _ = search_cut_short

-- The checks on the graph, from the producers
unfoldable pub check_graph :
    RuntimeLimits → List BlockConfig → Producers → Result RuntimeConfigError (Unit {0})
unfolding collect_edges
check_graph limits blocks producers = do
  let edges = collect_edges producers (bindings_of blocks) []
  visited ← map_err of_search (detect_signal_cycle (ids_of blocks) edges)
  size ← map_err of_search (largest_cascade (suc (length (ids_of blocks))) edges (ids_of blocks))
  reject (ltb limits.max_cascade_executions size)
      (cascade_too_large size limits.max_cascade_executions)

abbrev pub binding_count : List BlockConfig → ℕ
binding_count blocks = sum_by (λ block. length block.signal_bindings) blocks

-- The `saturating_add` of the source sizes, of 64 bits
abbrev pub source_bytes : List BlockConfig → ℕ
source_bytes blocks = min (sum_by (λ block. byte_len block.logic.source) blocks) (2 ^ 64 - 1)

abbrev pub is_empty : List BlockConfig → Bool
is_empty [] = true
is_empty (block ∷ blocks) = false

-- `RuntimeConfig::validate_with_limits`
unfoldable pub validate_runtime :
    Platform → Bool → RuntimeConfig → RuntimeLimits → Result RuntimeConfigError (Unit {0})
unfolding check_signals check_blocks collect_producers check_graph bindings_of
validate_runtime platform astronomy config limits = do
  reject (is_empty config.blocks) no_blocks
  reject (ltb limits.max_logic_blocks (length config.blocks))
      (too_many (length config.blocks) limits.max_logic_blocks)
  reject (ltb limits.max_signals (length config.signals))
      (too_many_signals (length config.signals) limits.max_signals)
  check_signals [] config.signals
  reject (ltb limits.max_signal_bindings (binding_count config.blocks))
      (too_many_signal_bindings (binding_count config.blocks) limits.max_signal_bindings)
  check_blocks platform astronomy limits [] config.blocks
  reject (ltb limits.max_logic_source_bytes_total (source_bytes config.blocks))
      (too_much_logic_source (source_bytes config.blocks) limits.max_logic_source_bytes_total)
  producers ← collect_producers config.signals (bindings_of config.blocks) []
  check_graph limits config.blocks producers
