-- ===== src/Runtime/Activation/Batch.antt =====
-- A batch activation keeps every block steady.
use logik_smith.Prelude.{
  ℕ, refl, Bool, true, false, Option, none, some, List, [], ◌∷◌, ◌==◌, get_elem?, All, All-set,
  All-get_elem?, Bool-cases, Option-cases, inl, inr,
}
use logik_smith.Prelude.Order.{list_ord, nat_ord}
use logik_smith.Prelude.Result.{Result-cases}
use logik_smith.Program.{LogicProgram}
use logik_smith.Lua.{Platform}
use logik_smith.Engine.{active_logic_revision}
use logik_smith.Engine.Activate.{install}
use logik_smith.Engine.Activation.{install-IsSafe}
use logik_smith.Block.{LogicBlock}
use logik_smith.Block.Health.{IsSteady, reset_health-IsSteady, set_enabled-IsSteady}
use logik_smith.Runtime.{Runtime, set_block}
use logik_smith.Runtime.Activation.{
  BlockActivation, Prepared, prepare, apply_program, is_switched, apply_switch, apply_update_to,
  apply_all, commit_update, activate,
}

module _ (maximum : ℕ) where
  installed-IsSteady :
      (block : LogicBlock) (program : LogicProgram)
      → IsSteady maximum block
      → IsSteady maximum (record block {
        config = record block.config { logic = program };
        engine = install block.engine program;
      })
  unfolding install
  installed-IsSteady block program s = record {
    safe = install-IsSafe block.engine program s.safe;
    switch = s.switch;
    quiet = inr refl;
    failures = s.failures;
    rate = s.rate;
    ordered = s.ordered;
  }

  apply_program-IsSteady :
      (block : LogicBlock) (program : Option LogicProgram)
      → IsSteady maximum block
      → IsSteady maximum (apply_program block program).2
  unfolding apply_program
  apply_program-IsSteady block none s = s
  apply_program-IsSteady block (some program) s =
      elim (Bool-cases (program.revision == active_logic_revision block.engine)) [
        | inl e ↦ rw (e, apply_program) s
        | inr e ↦
            rw (e, apply_program)
              (reset_health-IsSteady maximum _ (installed-IsSteady block program s)).0
      ]

  apply_switch-IsSteady :
      (block : LogicBlock) (enabled : Option Bool)
      → IsSteady maximum block
      → IsSteady maximum (apply_switch block enabled).1
  unfolding apply_switch
  apply_switch-IsSteady block none s = s
  apply_switch-IsSteady block (some true) s =
      elim (Bool-cases (is_switched (some true) block.config.enabled)) [
        | inr e ↦ rw (e, apply_switch) s
        | inl e ↦ rw (e, apply_switch) (set_enabled-IsSteady maximum block true s).0
      ]
  apply_switch-IsSteady block (some false) s =
      elim (Bool-cases (is_switched (some false) block.config.enabled)) [
        | inr e ↦ rw (e, apply_switch) s
        | inl e ↦ rw (e, apply_switch) (set_enabled-IsSteady maximum block false s).0
      ]

  apply_all-IsSteady :
      (prepared : List Prepared) (runtime : Runtime)
      → All (IsSteady maximum) runtime.blocks
      → All (IsSteady maximum) (apply_all prepared runtime).1.blocks
  unfolding apply_all apply_update_to commit_update set_block
  apply_all-IsSteady [] runtime s = s
  apply_all-IsSteady (p ∷ rest) runtime s = elim (Option-cases (get_elem? runtime.blocks p.index)) [
    | inl e ↦ rw (e, apply_all) s
    | inr (block, e) ↦
        rw (e, apply_all)
          (apply_all-IsSteady rest
            (commit_update runtime p.index (apply_update_to block p).1 (apply_update_to block p).0)
            (All-set (IsSteady maximum) runtime.blocks p.index _ s (
              apply_switch-IsSteady _ p.update.enabled (
                apply_program-IsSteady block p.program
                  (All-get_elem? (IsSteady maximum) runtime.blocks p.index s e)))))
  ]

-- Whatever the batch, a runtime whose blocks are all steady keeps them steady, whether the batch is
-- refused or applied.
pub activate-IsSteady :
    (maximum : ℕ) (platform : Platform) (runtime : Runtime) (updates : List BlockActivation)
    → All (IsSteady maximum) runtime.blocks
    → All (IsSteady maximum) (activate platform runtime updates).1.blocks
unfolding activate
activate-IsSteady maximum platform runtime updates s =
    elim (Result-cases (prepare platform runtime [] updates)) [
      | inr (x, e) ↦ rw (e, activate) s
      | inl (prepared, e) ↦ rw (e, activate) (apply_all-IsSteady maximum prepared runtime s)
    ]
