-- ===== src/Config/Validation.antt =====
-- What the validation of a runtime configuration decides.
use logik_smith.Prelude.{
  suc, ℕ, ◌≡◌, ◌≢◌, ◌⊎◌, inl, inr, refl, Bool, true, false, Option, none, some, List, [], ◌∷◌, ◌++◌,
  any, map, length, find, arith, Bool-cases, Option-cases, subst, sym, ap, All, All-append, ltb,
  not, if◌then◌else◌,
}
use logik_smith.Prelude.Order.{list_ord, nat_ord, same, same_refl}
use logik_smith.Prelude.Result.{Result, ok, err, ◌>>=◌, ◌>>◌, reject, map_err, ok_or}
use logik_smith.BTreeMap.{get}
use logik_smith.Identifiers.{BlockId, SignalName}
use logik_smith.Execution.{SignalEndpointId}
use logik_smith.Limits.{RuntimeLimits}
use logik_smith.Values.{Endpoint, is_input, dpt_eq, is_supported}
use logik_smith.Block.{BlockConfig, SignalBinding}
use logik_smith.Runtime.{SignalConfig}
use logik_smith.Lua.{Platform}
use logik_smith.Config.{
  RuntimeConfig, RuntimeConfigError, BlockConfigError, invalid_block, signal_cycle,
  cascade_too_large, search_cut_short, duplicate_signal, unsupported_signal_dpt, duplicate_id,
  unknown_signal, missing_endpoint, signal_dpt_mismatch, no_blocks, too_many, too_many_signals,
  too_many_signal_bindings, too_much_logic_source, Binding, Producers, bindings_of, endpoint_of,
  identity_of, collect_producers, collect_edges, check_graph, check_signals, check_blocks,
  check_binding, add_producer, validate_runtime, validate_block, ids_of, binding_count,
  source_bytes, is_empty,
}
use logik_smith.Config.Graph.{children, has}
use logik_smith.Config.Graph.Reach.{IsEdge, Reaches}
use logik_smith.Config.Graph.Cycle.{IsClosed, detect_signal_cycle-Decides}
use logik_smith.Config.Graph.Size.{largest_cascade, largest_cascade-Succeeds}
use logik_smith.Config.Consumers.{collect_edges_closed}

own_bindings :
    (ids : List BlockId) (block : BlockConfig) (bindings : List SignalBinding)
    → has ids block.id ≡ true
    → All
        (λ (binding : Binding). has ids binding.0.id ≡ true)
        (map (λ binding. (block, binding)) bindings)
own_bindings ids block [] h = tt
own_bindings ids block (binding ∷ rest) h = (h, own_bindings ids block rest h)

bindings_of_lem :
    (ids : List BlockId) (blocks : List BlockConfig)
    → ((id : BlockId) → has (ids_of blocks) id ≡ true → has ids id ≡ true)
    → All (λ (binding : Binding). has ids binding.0.id ≡ true) (bindings_of blocks)
unfolding bindings_of
bindings_of_lem ids [] h = tt
bindings_of_lem ids (block ∷ blocks) h =
    All-append (λ (binding : Binding). has ids binding.0.id ≡ true)
      (map (λ binding. (block, binding)) block.signal_bindings) (bindings_of blocks)
      (own_bindings ids block block.signal_bindings
        (h block.id (ground (arith, same_refl block.id))))
      (bindings_of_lem ids blocks (λ id k. h id (ground arith)))

-- The consumers of the graph are blocks.
edges-IsClosed :
    (blocks : List BlockConfig) (producers : Producers)
    → IsClosed (ids_of blocks) (collect_edges producers (bindings_of blocks) [])
unfolding children get
edges-IsClosed blocks producers =
    collect_edges_closed (ids_of blocks) producers (bindings_of blocks) []
      (bindings_of_lem (ids_of blocks) blocks (λ id k. k)) no_edge
  where
    no_edge : (a b : BlockId) → IsEdge [] a b → has (ids_of blocks) b ≡ true
    no_edge a b h = cc

-- The two ways in which the checks on the graph end
pub check_graph_cases :
    (limits : RuntimeLimits) (blocks : List BlockConfig) (producers : Producers)
    → ((size : ℕ) × (check_graph limits blocks producers
          ≡ reject
              (ltb limits.max_cascade_executions size)
              (cascade_too_large size limits.max_cascade_executions))
        × (largest_cascade
              (suc (length (ids_of blocks)))
              (collect_edges producers (bindings_of blocks) [])
              (ids_of blocks)
            ≡ ok size)
        × ((id : BlockId) → ¬ Reaches (collect_edges producers (bindings_of blocks) []) id id))
      ⊎ ((path : List BlockId) × (check_graph limits blocks producers ≡ err (signal_cycle path)))
unfolding check_graph
check_graph_cases limits blocks producers =
    let edges = collect_edges producers (bindings_of blocks) [] in
    elim (detect_signal_cycle-Decides (ids_of blocks) edges (edges-IsClosed blocks producers)) [
      | inl (visited, e, acyclic) ↦
          let (size, f) =
            largest_cascade-Succeeds (ids_of blocks) edges (edges-IsClosed blocks producers) acyclic
              (ids_of blocks) (λ id k. k) in
          inl (size, rw (e, f, check_graph) refl, f, acyclic)
      | inr (path, e, id, loop) ↦ inr (path, rw (e, check_graph) refl)
    ]

-- Outcomes other than a search that was cut short
abbrev Ends {ℓ} : {A : Type ℓ} → Result RuntimeConfigError A → Type ℓ
Ends r = r ≢ err search_cut_short

module _ {ℓ κ} {A : Type ℓ} {B : Type κ} where
  bind-Ends :
      (r : Result RuntimeConfigError A) (k : A → Result RuntimeConfigError B)
      → Ends r
      → ((a : A) → Ends (k a))
      → Ends (r >>= k)
  bind-Ends (ok a) k h g = g a
  bind-Ends (err e) k h g = λ f. h (ap (λ r. elim r [ ok x ↦ err e | err x ↦ err x ]) f)

reject-Ends :
    (broken : Bool) (e : RuntimeConfigError) → e ≢ search_cut_short → Ends (reject broken e)
reject-Ends false e h f = cc
reject-Ends true e h f = h (ap (λ r. elim r [ ok x ↦ e | err x ↦ x ]) f)

-- A check in front of the rest of a method
reject-bind-Ends {ℓ} :
    {A : Type ℓ} (broken : Bool) (e : RuntimeConfigError) (rest : Result RuntimeConfigError A)
    → e ≢ search_cut_short
    → Ends rest
    → Ends (reject broken e >> rest)
reject-bind-Ends broken e rest h k =
    bind-Ends (reject broken e) (λ passed. rest) (reject-Ends broken e h) λ passed. k

ok_or-Ends {ℓ} :
    {A : Type ℓ} (o : Option A) (e : RuntimeConfigError) → e ≢ search_cut_short → Ends (ok_or o e)
ok_or-Ends none e h f = h (ap (λ r. elim r [ ok x ↦ e | err x ↦ x ]) f)
ok_or-Ends (some a) e h f = cc

module _ (platform : Platform) (astronomy : Bool) (limits : RuntimeLimits) where
  check_signals-Ends : (before signals : List SignalConfig) → Ends (check_signals before signals)
  unfolding check_signals
  check_signals-Ends before [] = λ e. cc
  check_signals-Ends before (signal ∷ rest) =
      reject-bind-Ends (any (λ other. same other.name signal.name) before)
        (duplicate_signal signal.name) _ (λ e. cc)
        (reject-bind-Ends (not (is_supported signal.dpt))
          (unsupported_signal_dpt signal.name signal.dpt) _ (λ e. cc)
          (check_signals-Ends (before ++ signal ∷ []) rest))

  check_blocks-Ends :
      (before blocks : List BlockConfig)
      → Ends (check_blocks platform astronomy limits before blocks)
  unfolding check_blocks
  check_blocks-Ends before [] = λ e. cc
  check_blocks-Ends before (block ∷ rest) =
      reject-bind-Ends (any (λ other. same other.id block.id) before) (duplicate_id block.id) _
        (λ e. cc)
        (bind-Ends
          (map_err (invalid_block block.id) (validate_block platform astronomy block limits)) _
          (refused (validate_block platform astronomy block limits))
          λ b. check_blocks-Ends (before ++ block ∷ []) rest)
    where
      refused : (r : Result BlockConfigError (Unit {0})) → Ends (map_err (invalid_block block.id) r)
      refused (ok u) e = cc
      refused (err f) e = cc

  add_producer-Ends :
      (signal : SignalName) (identity : SignalEndpointId) (producers : Producers)
      → Ends (add_producer signal identity producers)
  unfolding add_producer
  add_producer-Ends signal identity producers = elim (Option-cases (get signal producers)) [
    | inl g ↦ rw (g, add_producer) (λ f. cc)
    | inr (previous, g) ↦ rw (g, add_producer) (λ f. cc)
  ]

  check_binding-Ends :
      (signals : List SignalConfig) (binding : Binding) (producers : Producers)
      → Ends (check_binding signals binding producers)
  unfolding check_binding
  check_binding-Ends signals binding producers =
      bind-Ends
        (ok_or (find (λ signal. same signal.name binding.1.signal) signals)
          (unknown_signal binding.0.id binding.1.endpoint binding.1.signal))
        _
        (ok_or-Ends (find (λ signal. same signal.name binding.1.signal) signals)
          (unknown_signal binding.0.id binding.1.endpoint binding.1.signal) λ e. cc)
        λ signal.
          bind-Ends (ok_or (endpoint_of binding) missing_endpoint) _
            (ok_or-Ends (endpoint_of binding) missing_endpoint λ e. cc)
            λ endpoint.
              reject-bind-Ends (not (dpt_eq endpoint.dpt signal.dpt))
                (signal_dpt_mismatch binding.0.id endpoint.name signal.name endpoint.dpt signal.dpt)
                _ (λ e. cc) (added endpoint)
    where
      added :
          (endpoint : Endpoint)
          → Ends (
              if is_input endpoint.direction
              then ok producers
              else add_producer binding.1.signal (identity_of binding) producers)
      added endpoint = elim (Bool-cases (is_input endpoint.direction)) [
        | inl e ↦ rw e (λ f. cc)
        | inr e ↦ rw e (add_producer-Ends binding.1.signal (identity_of binding) producers)
      ]

  collect_producers-Ends :
      (signals : List SignalConfig) (bindings : List Binding) (producers : Producers)
      → Ends (collect_producers signals bindings producers)
  unfolding collect_producers
  collect_producers-Ends signals [] producers = λ e. cc
  collect_producers-Ends signals (binding ∷ rest) producers =
      bind-Ends (check_binding signals binding producers) _
        (check_binding-Ends signals binding producers)
        (λ after. collect_producers-Ends signals rest after)

  check_graph-Ends :
      (blocks : List BlockConfig) (producers : Producers)
      → Ends (check_graph limits blocks producers)
  check_graph-Ends blocks producers = elim (check_graph_cases limits blocks producers) [
    | inl (size, e, f, acyclic) ↦
        subst Ends (sym e)
          (reject-Ends _ (cascade_too_large size limits.max_cascade_executions) λ f. cc)
    | inr (path, e) ↦ subst Ends (sym e) λ f. cc
  ]

  -- The validation of every configuration ends with a verdict: the searches through the graph of its
  -- signals come to an end within their fuel, one more than the number of blocks.
  pub validate_runtime_ends :
      (config : RuntimeConfig)
      → validate_runtime platform astronomy config limits ≢ err search_cut_short
  unfolding validate_runtime
  validate_runtime_ends config =
      reject-bind-Ends (is_empty config.blocks) no_blocks _ (λ e. cc)
        (reject-bind-Ends (ltb limits.max_logic_blocks (length config.blocks))
          (too_many (length config.blocks) limits.max_logic_blocks) _ (λ e. cc)
          (reject-bind-Ends (ltb limits.max_signals (length config.signals))
            (too_many_signals (length config.signals) limits.max_signals) _ (λ e. cc)
            (bind-Ends (check_signals [] config.signals) _ (check_signals-Ends [] config.signals)
              λ d.
                reject-bind-Ends (ltb limits.max_signal_bindings (binding_count config.blocks))
                  (too_many_signal_bindings (binding_count config.blocks)
                    limits.max_signal_bindings)
                  _ (λ e. cc)
                  (bind-Ends (check_blocks platform astronomy limits [] config.blocks) _
                    (check_blocks-Ends [] config.blocks)
                    λ g.
                      reject-bind-Ends
                        (ltb limits.max_logic_source_bytes_total (source_bytes config.blocks))
                        (too_much_logic_source (source_bytes config.blocks)
                          limits.max_logic_source_bytes_total)
                        _ (λ e. cc) graph_ends))))
    where
      graph_ends : Ends (
          collect_producers config.signals (bindings_of config.blocks) [] >>= λ producers.
          check_graph limits config.blocks producers)
      graph_ends =
          bind-Ends (collect_producers config.signals (bindings_of config.blocks) [])
            (λ producers. check_graph limits config.blocks producers)
            (collect_producers-Ends config.signals (bindings_of config.blocks) [])
            (check_graph-Ends config.blocks)
