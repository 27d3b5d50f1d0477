-- ===== src/Runtime/Activation.antt =====
-- crates/logiksmith-core/src/runtime_activation.rs: the batch activation of sources and switches.
-- Every update is checked before any block changes.
pub mod Batch
pub mod Prepare
pub mod Places
pub mod Reports
use logik_smith.Prelude.{
  ℕ, Bool, true, false, Option, none, some, List, [], ◌∷◌, ◌++◌, ◌&&◌, ◌==◌, not, any, is_some,
  position, get_elem?, if◌then◌else◌, Ordering, map,
}
use logik_smith.Prelude.Order.{list_ord, nat_ord, same}
use logik_smith.Prelude.Result.{Result, ok, err, ◌>>=◌, ◌>>◌, reject, map_err, map_ok, ok_or}
use logik_smith.BTreeMap.{keys}
use logik_smith.Text.{Text}
use logik_smith.Identifiers.{BlockId}
use logik_smith.Limits.{RuntimeLimits}
use logik_smith.Program.{LogicProgram, LogicRevision, LogicError, TimerName}
use logik_smith.Lua.{Platform}
use logik_smith.Engine.{active_logic_revision}
use logik_smith.Engine.Activate.{try_new_program, install}
use logik_smith.Block.{LogicBlock, clear_timers, reset_health, set_enabled}
use logik_smith.Runtime.{Runtime, set_block}
use logik_smith.Runtime.Schedules.{mark_block}

pub record BlockActivation : Type 0 where
  pub block_id : BlockId
  pub source : Option Text
  pub enabled : Option Bool

pub record BlockActivationResult : Type 0 where
  pub block_id : BlockId
  pub logic_revision : LogicRevision
  pub enabled : Bool
  pub source_changed : Bool
  pub enabled_changed : Bool
  pub cancelled_timers : List TimerName

-- `missing_block` is no constructor of the source: it stands for the panic of an index.
pub data ActivationError : Type 0 where
  empty_update : BlockId → ActivationError
  unknown_id : BlockId → ActivationError
  duplicate_block : BlockId → ActivationError
  invalid_source : BlockId → LogicError → ActivationError
  missing_block : ActivationError

-- One checked update: the index of its block, and its program.
pub record Prepared : Type 0 where
  pub update : BlockActivation
  pub index : ℕ
  pub program : Option LogicProgram

-- `source.map(LogicProgram::try_new_with_limits).transpose()`
unfoldable pub prepare_program :
    Platform → RuntimeLimits → BlockActivation → Result ActivationError (Option LogicProgram)
prepare_program platform limits update = elim update.source [
  | none ↦ ok none
  | some source ↦
      map_err (invalid_source update.block_id)
        (map_ok some (try_new_program platform source limits))
]

-- The first loop, behind the indexes that it has already met.
unfoldable pub prepare :
    Platform → Runtime → List ℕ → List BlockActivation → Result ActivationError (List Prepared)
prepare platform runtime indexes [] = ok []
prepare platform runtime indexes (update ∷ rest) = do
  reject (not (is_some update.source) && not (is_some update.enabled))
      (empty_update update.block_id)
  index ←
      ok_or (position (λ block. same block.config.id update.block_id) runtime.blocks)
        (unknown_id update.block_id)
  reject (any (λ other. other == index) indexes) (duplicate_block update.block_id)
  program ← prepare_program platform runtime.limits update
  prepared ← prepare platform runtime (indexes ++ index ∷ []) rest
  ok (record { update = update; index = index; program = program } ∷ prepared)

-- The source part of one update: the timers it cancels, whether it changed, and the block.
unfoldable pub apply_program : LogicBlock → Option LogicProgram → List TimerName × Bool × LogicBlock
apply_program block none = ([], false, block)
apply_program block (some program) =
    if program.revision == active_logic_revision block.engine then ([], false, block) else (
      keys block.engine.pending_timers,
      true,
      reset_health (record block {
        config = record block.config { logic = program };
        engine = install block.engine program;
      }),
    )

differs_from : Bool → Bool → Bool
differs_from true b = not b
differs_from false b = b

-- `enabled.is_some_and(|enabled| enabled != current)`
unfoldable pub is_switched : Option Bool → Bool → Bool
unfolding differs_from
is_switched none current = false
is_switched (some enabled) current = differs_from enabled current

-- The switch of one update: the timers it cancels, and the block.
unfoldable pub apply_switch : LogicBlock → Option Bool → List TimerName × LogicBlock
apply_switch block none = ([], block)
apply_switch block (some enabled) =
    if not (is_switched (some enabled) block.config.enabled)
    then ([], block)
    else if enabled
    then ([], set_enabled block true)
    else (keys block.engine.pending_timers, set_enabled block false)

-- `sort` and `dedup` of the cancelled timers
place : TimerName → List TimerName → List TimerName
place name [] = name ∷ []
place name (other ∷ rest) =
    let placed = place name rest in
    elim (list_ord.cmp name other) [
      | Ordering.lt ↦ name ∷ other ∷ rest
      | Ordering.eq ↦ other ∷ rest
      | Ordering.gt ↦ other ∷ placed
    ]

unfoldable pub sort_dedup : List TimerName → List TimerName
unfolding place
sort_dedup [] = []
sort_dedup (name ∷ rest) = place name (sort_dedup rest)

-- The second loop's body, on the block of the update.
unfoldable pub apply_update_to : LogicBlock → Prepared → BlockActivationResult × LogicBlock
apply_update_to block prepared =
    let (cancelled, changed, installed) = apply_program block prepared.program in
    let (stopped, after) = apply_switch installed prepared.update.enabled in
    (
      record {
        block_id = after.config.id;
        logic_revision = active_logic_revision after.engine;
        enabled = after.config.enabled;
        source_changed = changed;
        enabled_changed = is_switched prepared.update.enabled installed.config.enabled;
        cancelled_timers = sort_dedup (cancelled ++ stopped);
      },
      after,
    )

-- The new block, and the marks on its schedule cursors if its switch changed.
unfoldable pub commit_update : Runtime → ℕ → LogicBlock → BlockActivationResult → Runtime
commit_update runtime index after result = record (set_block runtime index after) {
  schedule_cursors =
      if result.enabled_changed
      then mark_block after.config.id runtime.schedule_cursors
      else runtime.schedule_cursors;
}

unfoldable pub apply_all :
    List Prepared → Runtime → Result ActivationError (List BlockActivationResult) × Runtime
apply_all [] runtime = (ok [], runtime)
apply_all (prepared ∷ rest) runtime = elim (get_elem? runtime.blocks prepared.index) [
  | none ↦ (err missing_block, runtime)
  | some block ↦
      let (result, after) = apply_update_to block prepared in
      let (results, final) = apply_all rest (commit_update runtime prepared.index after result) in
      (map_ok (λ rs. result ∷ rs) results, final)
]

-- `Runtime::activate`
unfoldable pub activate :
    Platform
    → Runtime
    → List BlockActivation
    → Result ActivationError (List BlockActivationResult) × Runtime
activate platform runtime updates = elim (prepare platform runtime [] updates) [
  | err e ↦ (err e, runtime)
  | ok prepared ↦ apply_all prepared runtime
]
