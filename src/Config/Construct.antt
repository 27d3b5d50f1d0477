-- ===== src/Config/Construct.antt =====
-- crates/logiksmith-core/src/runtime_impl.rs, runtime_model.rs: `try_new`, which builds a runtime from its
-- configuration.
use logik_smith.Prelude.{
  ℕ, suc, ◌≡◌, refl, Bool, none, some, List, [], ◌∷◌, ◌++◌, map, All, arith, inl, inr, subst, set,
  get_elem?, Bool-cases, ap, sym, if◌then◌else◌,
}
use logik_smith.Prelude.Order.{list_ord, nat_ord}
use logik_smith.Prelude.Result.{
  Result, ok, err, ◌>>=◌, ◌>>◌, >>=-eq-ok, map_err, ok_or, ok-injective,
}
use logik_smith.BTreeMap.{BTreeMap, get, insert}
use logik_smith.Identifiers.{SignalName}
use logik_smith.Limits.{RuntimeLimits}
use logik_smith.Values.{Endpoint, is_input}
use logik_smith.Lua.{Platform}
use logik_smith.Engine.{Engine, EngineConfig, try_new, validate_config}
use logik_smith.Engine.Invariant.{IsSafe}
use logik_smith.Engine.Activation.{try_new-IsSafe}
use logik_smith.Block.{BlockConfig, LogicBlock, active, disabled, is_active}
use logik_smith.Block.Health.{IsSteady}
use logik_smith.Runtime.{Runtime, SignalConfig, SignalState}
use logik_smith.Config.{
  RuntimeConfig, RuntimeConfigError, engine, invalid_block, missing_endpoint, validate_block,
  validate_runtime, Binding, bindings_of, endpoint_of, identity_of,
}

-- `LogicBlock::try_new`
unfoldable pub try_new_block :
    Platform → Bool → RuntimeLimits → BlockConfig → Result RuntimeConfigError LogicBlock
try_new_block platform astronomy limits config = do
  map_err (invalid_block config.id) (validate_block platform astronomy config limits)
  fresh ←
      map_err (λ error. invalid_block config.id (engine error))
        (try_new platform (record { endpoints = config.endpoints; logic = config.logic }) limits)
  ok (record {
    config = config;
    engine = fresh;
    health = if config.enabled then active else disabled;
    consecutive_failures = 0;
    live_execution_times = [];
    last_suspension = none;
  })

-- `collect`, up to the first error
unfoldable pub try_new_blocks :
    Platform → Bool → RuntimeLimits → List BlockConfig → Result RuntimeConfigError (List LogicBlock)
unfolding try_new_block
try_new_blocks platform astronomy limits [] = ok []
try_new_blocks platform astronomy limits (config ∷ rest) = do
  block ← try_new_block platform astronomy limits config
  blocks ← try_new_blocks platform astronomy limits rest
  ok (block ∷ blocks)

unfoldable pub new_signal : SignalConfig → SignalState
new_signal config = record {
  config = config;
  value = none;
  observed_at = none;
  changed_at = none;
  producer = none;
  producing_execution = none;
  consumers = [];
}

unfoldable pub index_signals : ℕ → List SignalConfig → BTreeMap SignalName ℕ → BTreeMap SignalName ℕ
index_signals index [] indexes = indexes
index_signals index (signal ∷ rest) indexes =
    index_signals (suc index) rest (insert signal.name index indexes)

-- The producer or a consumer of a signal
unfoldable pub attach : Endpoint → Binding → SignalState → SignalState
attach endpoint binding signal =
    if is_input endpoint.direction
    then record signal { consumers = signal.consumers ++ identity_of binding ∷ [] }
    else record signal { producer = some (identity_of binding) }

-- The body of the loop over the bindings; an index out of range would panic.
unfoldable pub connect :
    BTreeMap SignalName ℕ
    → Binding
    → Endpoint
    → List SignalState
    → Result RuntimeConfigError (List SignalState)
unfolding attach
connect indexes binding endpoint signals = elim (get binding.1.signal indexes) [
  | none ↦ ok signals
  | some index ↦ elim (get_elem? signals index) [
    | none ↦ err missing_endpoint
    | some signal ↦ ok (set signals index (attach endpoint binding signal))
  ]
]

unfoldable pub connect_all :
    BTreeMap SignalName ℕ
    → List Binding
    → List SignalState
    → Result RuntimeConfigError (List SignalState)
unfolding connect
connect_all indexes [] signals = ok signals
connect_all indexes (binding ∷ rest) signals = do
  endpoint ← ok_or (endpoint_of binding) missing_endpoint
  after ← connect indexes binding endpoint signals
  connect_all indexes rest after

-- `Runtime::try_new_with_limits`
unfoldable pub try_new_runtime :
    Platform → Bool → RuntimeConfig → RuntimeLimits → Result RuntimeConfigError Runtime
unfolding try_new_blocks new_signal index_signals connect_all
try_new_runtime platform astronomy config limits = do
  validate_runtime platform astronomy config limits
  blocks ← try_new_blocks platform astronomy limits config.blocks
  let indexes = index_signals 0 config.signals []
  signals ← connect_all indexes (bindings_of config.blocks) (map new_signal config.signals)
  ok (record {
    limits = limits;
    blocks = blocks;
    signals = signals;
    signal_indexes = indexes;
    last_accepted_at = none;
    next_execution_id = 1;
    site = config.site;
    schedule_cursors = [];
    schedule_structural_revision = none;
    last_schedule_wall_clock_utc_ms = none;
  })

map_err-ok {ℓ κ μ} :
    {E : Type ℓ} {F : Type κ} {A : Type μ} (f : E → F) (r : Result E A) {a : A}
    → map_err f r ≡ ok a
    → r ≡ ok a
map_err-ok f (ok b) h = ap ok (ok-injective b h)
map_err-ok f (err e) h = cc

module _ (platform : Platform) (astronomy : Bool) (limits : RuntimeLimits) (maximum : ℕ) where
  -- A block around a new engine
  new-IsSteady :
      (config : BlockConfig) (fresh : Engine)
      → IsSafe fresh
      → fresh.pending_timers ≡ []
      → IsSteady maximum (record {
        config = config;
        engine = fresh;
        health = if config.enabled then active else disabled;
        consecutive_failures = 0;
        live_execution_times = [];
        last_suspension = none;
      })
  unfolding is_active
  new-IsSteady config fresh s idle = record {
    safe = s;
    switch = elim (Bool-cases config.enabled) [ inl e ↦ rw e refl | inr e ↦ rw e refl ];
    quiet = inr idle;
    failures = inr (omega arith);
    rate = omega arith;
    ordered = tt;
  }

  try_new_idle :
      (config : EngineConfig) {fresh : Engine}
      → try_new platform config limits ≡ ok fresh
      → fresh.pending_timers ≡ []
  unfolding try_new
  try_new_idle config {fresh} h =
      let (u, v, e) = >>=-eq-ok (validate_config platform config limits) _ h in
      sym (ap (λ engine. engine.pending_timers) (ok-injective _ e))

  try_new_block-IsSteady :
      (config : BlockConfig) {block : LogicBlock}
      → try_new_block platform astronomy limits config ≡ ok block
      → IsSteady maximum block
  unfolding try_new_block
  try_new_block-IsSteady config {block} h =
      let (u, v, k) =
        >>=-eq-ok
          (map_err (invalid_block config.id) (validate_block platform astronomy config limits)) _
          h in
      let (fresh, made, l) =
        >>=-eq-ok
          (map_err (λ error. invalid_block config.id (engine error)) (try_new platform _ limits)) _
          k in
      subst (IsSteady maximum) (ok-injective _ l) (
        new-IsSteady config fresh
          (try_new-IsSafe platform _ limits {engine = fresh} (map_err-ok _ _ made))
          (try_new_idle _ {fresh = fresh} (map_err-ok _ _ made)))

  try_new_blocks-IsSteady :
      (configs : List BlockConfig) {blocks : List LogicBlock}
      → try_new_blocks platform astronomy limits configs ≡ ok blocks
      → All (IsSteady maximum) blocks
  unfolding try_new_blocks
  try_new_blocks-IsSteady [] {blocks} h = subst (All (IsSteady maximum)) (ok-injective [] h) tt
  try_new_blocks-IsSteady (config ∷ rest) {blocks} h =
      let (block, e, k) = >>=-eq-ok (try_new_block platform astronomy limits config) _ h in
      let (others, f, l) = >>=-eq-ok (try_new_blocks platform astronomy limits rest) _ k in
      subst (All (IsSteady maximum)) (ok-injective (block ∷ others) l)
        (try_new_block-IsSteady config e, try_new_blocks-IsSteady rest f)

  -- Every block of a runtime that is built from a configuration is steady.
  pub try_new_runtime-IsSteady :
      (config : RuntimeConfig) {runtime : Runtime}
      → try_new_runtime platform astronomy config limits ≡ ok runtime
      → All (IsSteady maximum) runtime.blocks
  unfolding try_new_runtime
  try_new_runtime-IsSteady config {runtime} h =
      let (u, v, k) = >>=-eq-ok (validate_runtime platform astronomy config limits) _ h in
      let (blocks, e, l) = >>=-eq-ok (try_new_blocks platform astronomy limits config.blocks) _ k in
      let (signals, f, m) =
        >>=-eq-ok
          (connect_all (index_signals 0 config.signals []) (bindings_of config.blocks)
            (map new_signal config.signals))
          _ l in
      subst (λ r. All (IsSteady maximum) r.blocks) (ok-injective _ m)
        (try_new_blocks-IsSteady config.blocks e)
