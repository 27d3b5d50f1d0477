-- ===== src/Examples/Wired.antt =====
-- A configuration of two blocks, the first of which switches a lamp signal that the second reads, and
-- the theorems on configurations at concrete inputs.
use logik_smith.Prelude.{
  none, some, ◌≡◌, ◌≢◌, refl, true, false, [], ◌∷◌, List, All, arith, inl, inr, Bool-cases,
}
use logik_smith.Prelude.Order.{list_ord, nat_ord, same}
use logik_smith.Prelude.Result.{ok, err}
use logik_smith.BTreeMap.{get, insert}
use logik_smith.Text.{byte_len, as_bytes}
use logik_smith.Identifiers.{BlockId}
use logik_smith.Values.{is_supported, is_bool}
use logik_smith.Program.{LogicProgram, revision_for}
use logik_smith.Execution.{default_site}
use logik_smith.Lua.Execute.{validate_logic_source_with_limits, check_source_size_with_limits}
use logik_smith.Engine.{Engine, unknown, try_new, validate_config, check_endpoints}
use logik_smith.Block.{BlockConfig, LogicBlock, active}
use logik_smith.Block.Health.{IsSteady}
use logik_smith.Runtime.{Runtime, SignalState}
use logik_smith.Config.Construct.{
  try_new_runtime, try_new_blocks, try_new_block, new_signal, index_signals, connect_all, connect,
  attach, try_new_runtime-IsSteady,
}
use logik_smith.Config.{
  RuntimeConfig, search_cut_short, validate_runtime, check_signals, check_blocks, collect_producers,
  check_graph, check_binding, add_producer, bindings_of, collect_edges, add_edge, push_edge,
  validate_block, check_schedules, check_bindings,
}
use logik_smith.Config.Graph.{Edges, children, detect_signal_cycle, visit_root, visit, try_fold}
use logik_smith.Config.Graph.Cycle.{IsClosed, Decides, detect_signal_cycle-Decides}
use logik_smith.Config.Graph.Size.{largest_cascade, cascade_size, add_size, remember}
use logik_smith.Config.Validation.{validate_runtime_ends}
use logik_smith.Config.Sound.{IsSound, validate_runtime-IsSound}
use logik_smith.Examples.{
  button, lamp, source, endpoints, platform, desktop_limits, lamp_signal, feedback,
}

abbrev first_id : BlockId
first_id = b'a' ∷ []

abbrev second_id : BlockId
second_id = b'b' ∷ []

-- Two blocks that feed each other
abbrev loop : Edges
loop = (first_id, second_id ∷ []) ∷ (second_id, first_id ∷ []) ∷ []

abbrev loop_ids : List BlockId
loop_ids = first_id ∷ second_id ∷ []

loop-IsClosed : IsClosed loop_ids loop
unfolding children get
loop-IsClosed a b h = elim (Bool-cases (same first_id a)) [
  | inl e ↦ let k = rw e at h in ground arith
  | inr e ↦ elim (Bool-cases (same second_id a)) [
    | inl f ↦ let k = rw (e, f) at h in ground arith
    | inr f ↦ let k = rw (e, f) at h in cc
  ]
]

detect_signal_cycle-Decides_example : Decides loop_ids loop (detect_signal_cycle loop_ids loop)
detect_signal_cycle-Decides_example = detect_signal_cycle-Decides loop_ids loop loop-IsClosed

abbrev switch_program : LogicProgram
switch_program = record { source = source; revision = revision_for source }

abbrev switching : BlockConfig
switching = record {
  id = first_id;
  enabled = true;
  endpoints = endpoints;
  logic = switch_program;
  schedules = [];
  signal_bindings = record { endpoint = lamp; signal = lamp } ∷ [];
}

abbrev reading : BlockConfig
reading = record switching {
  id = second_id;
  signal_bindings = record { endpoint = button; signal = lamp } ∷ [];
}

abbrev wired : RuntimeConfig
wired = record {
  blocks = switching ∷ reading ∷ [];
  signals = lamp_signal.config ∷ [];
  site = default_site;
}

validate_runtime_ends_example :
    validate_runtime platform false wired desktop_limits ≢ err search_cut_short
validate_runtime_ends_example = validate_runtime_ends platform false desktop_limits wired

wired_accepted : validate_runtime platform false wired desktop_limits ≡ ok tt
unfolding validate_runtime check_signals check_blocks collect_producers check_graph check_binding
    add_producer bindings_of collect_edges add_edge push_edge validate_block check_schedules
    check_bindings detect_signal_cycle visit_root visit try_fold children get insert largest_cascade
    cascade_size add_size remember validate_config check_endpoints validate_logic_source_with_limits
    check_source_size_with_limits revision_for byte_len as_bytes is_supported is_bool list_ord
wired_accepted = refl

validate_runtime-IsSound_example : IsSound platform false desktop_limits wired
validate_runtime-IsSound_example =
    validate_runtime-IsSound platform false desktop_limits wired wired_accepted

abbrev new_engine : Engine
new_engine = record {
  config = record { endpoints = endpoints; logic = switch_program };
  limits = desktop_limits;
  inputs = unknown ∷ unknown ∷ [];
  state = [];
  pending_timers = [];
  last_accepted_at = none;
}

abbrev new_block : BlockConfig → LogicBlock
new_block config = record {
  config = config;
  engine = new_engine;
  health = active;
  consecutive_failures = 0;
  live_execution_times = [];
  last_suspension = none;
}

abbrev wired_signal : SignalState
wired_signal = record lamp_signal {
  producer = some (record { block_id = first_id; endpoint = lamp });
  consumers = record { block_id = second_id; endpoint = button } ∷ [];
}

abbrev wired_runtime : Runtime
wired_runtime = record feedback {
  blocks = new_block switching ∷ new_block reading ∷ [];
  signals = wired_signal ∷ [];
  last_accepted_at = none;
}

builds : try_new_runtime platform false wired desktop_limits ≡ ok wired_runtime
unfolding try_new_runtime try_new_blocks try_new_block try_new new_signal index_signals connect_all
    connect attach validate_runtime check_signals check_blocks collect_producers check_graph
    check_binding add_producer bindings_of collect_edges add_edge push_edge validate_block
    check_schedules check_bindings detect_signal_cycle visit_root visit try_fold children get insert
    largest_cascade cascade_size add_size remember validate_config check_endpoints
    validate_logic_source_with_limits check_source_size_with_limits revision_for byte_len as_bytes
    is_supported is_bool list_ord
builds = refl

try_new_runtime-IsSteady_example : All (IsSteady 128) wired_runtime.blocks
try_new_runtime-IsSteady_example =
    try_new_runtime-IsSteady platform false desktop_limits 128 wired {runtime = wired_runtime}
      builds
