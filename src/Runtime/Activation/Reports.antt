-- ===== src/Runtime/Activation/Reports.antt =====
-- A batch activation is all or nothing, and the runtime has what it reports.
use logik_smith.Prelude.{
  ℕ, zero, suc, ◌<◌, length, length-set, ◌≡◌, ◌≢◌, refl, Bool, true, false, Option, none, some,
  List, [], ◌∷◌, ◌==◌, get_elem?, All, arith, Bool-cases, Option-cases, inl, inr, ◌⊎◌, ap, ◌∙◌,
  subst, sym, get_elem?-lt, get_elem?-set_self,
}
use logik_smith.Prelude.Order.{list_ord, nat_ord}
use logik_smith.Prelude.Result.{Result, ok, err, Result-cases, map_ok}
use logik_smith.Text.{Text}
use logik_smith.Program.{LogicProgram, revision_for}
use logik_smith.Lua.{Platform}
use logik_smith.Engine.{active_logic_revision}
use logik_smith.Engine.Activate.{install}
use logik_smith.Block.{LogicBlock, reset_health, set_enabled}
use logik_smith.Runtime.{Runtime, set_block}
use logik_smith.Runtime.Activation.{
  BlockActivation, BlockActivationResult, ActivationError, Prepared, prepare, apply_program,
  is_switched, apply_switch, apply_update_to, apply_all, commit_update, activate,
}
use logik_smith.Prelude.MinBy.{In, In-suc, In-head_or_tail, All-In}
use logik_smith.Runtime.Activation.Places.{
  IsLocated, AreApart, prepare-IsPlaced, get_elem?-set_other,
}
use logik_smith.Runtime.Activation.Prepare.{
  IsProgramOf, ArePrepared, prepare-ArePrepared, prepare-AreInRange,
}

-- The reported revision is that of the source, where the update has one; the reported switch is that
-- of the update, where it has one.
abbrev pub ReportsSource : Option Text → BlockActivationResult → Type 0
ReportsSource none r = Unit
ReportsSource (some source) r = r.logic_revision ≡ revision_for source

abbrev pub ReportsSwitch : Option Bool → BlockActivationResult → Type 0
ReportsSwitch none r = Unit
ReportsSwitch (some enabled) r = r.enabled ≡ enabled

-- The block of an update: it is in the runtime, with the revision and the switch that are reported and
-- asked for.
abbrev pub Writes : BlockActivation → BlockActivationResult → Runtime → Type 0
Writes u r after =
    (index : ℕ) × (block : LogicBlock) × (get_elem? after.blocks index ≡ some block)
    × (block.config.id ≡ u.block_id)
    × (r.block_id ≡ u.block_id)
    × (active_logic_revision block.engine ≡ r.logic_revision)
    × (block.config.enabled ≡ r.enabled)
    × ReportsSource u.source r
    × ReportsSwitch u.enabled r

abbrev pub Reports : List BlockActivation → List BlockActivationResult → Runtime → Type 0
Reports [] [] after = Unit
Reports [] (r ∷ rs) after = ⊥
Reports (u ∷ us) [] after = ⊥
Reports (u ∷ us) (r ∷ rs) after = Writes u r after × Reports us rs after

-- The block at an index is the one that was there, or an update is for the ID of that one.
abbrev pub Keeps : List BlockActivation → Runtime → Runtime → ℕ → Type 0
Keeps updates before after i =
    (get_elem? after.blocks i ≡ get_elem? before.blocks i)
    ⊎ ((u : BlockActivation) × (block : LogicBlock) × In u updates
        × (get_elem? before.blocks i ≡ some block)
        × (block.config.id ≡ u.block_id))

-- What a batch did.
abbrev pub Activated :
    Runtime
    → List BlockActivation
    → Result ActivationError (List BlockActivationResult) × Runtime
    → Type 0
Activated runtime updates r =
    ((x : ActivationError) × (r ≡ (err x, runtime)))
    ⊎ ((results : List BlockActivationResult) × (r.0 ≡ ok results)
        × Reports updates results r.1
        × ((i : ℕ) → Keeps updates runtime r.1 i))

apply_program_revision :
    (block : LogicBlock) (p : LogicProgram)
    → active_logic_revision (apply_program block (some p)).2.engine ≡ p.revision
unfolding apply_program install reset_health
apply_program_revision block p =
    elim (Bool-cases (p.revision == active_logic_revision block.engine)) [
      | inl e ↦ rw (e, apply_program) (ground arith)
      | inr e ↦ rw (e, apply_program) refl
    ]

apply_switch_revision :
    (block : LogicBlock) (enabled : Option Bool)
    → active_logic_revision (apply_switch block enabled).1.engine
      ≡ active_logic_revision block.engine
unfolding apply_switch set_enabled reset_health
apply_switch_revision block none = refl
apply_switch_revision block (some true) =
    elim (Bool-cases (is_switched (some true) block.config.enabled)) [
      | inl e ↦ rw (e, apply_switch) refl
      | inr e ↦ rw (e, apply_switch) refl
    ]
apply_switch_revision block (some false) =
    elim (Bool-cases (is_switched (some false) block.config.enabled)) [
      | inl e ↦ rw (e, apply_switch) refl
      | inr e ↦ rw (e, apply_switch) refl
    ]

apply_switch_enabled :
    (block : LogicBlock) (enabled : Bool)
    → (apply_switch block (some enabled)).1.config.enabled ≡ enabled
unfolding apply_switch set_enabled reset_health is_switched
apply_switch_enabled block true = elim (Bool-cases (is_switched (some true) block.config.enabled)) [
  | inl e ↦ rw (e, apply_switch) refl
  | inr e ↦ rw (e, apply_switch) (ground arith)
]
apply_switch_enabled block false =
    elim (Bool-cases (is_switched (some false) block.config.enabled)) [
      | inl e ↦ rw (e, apply_switch) refl
      | inr e ↦ rw (e, apply_switch) (ground arith)
    ]

reports_source :
    (block : LogicBlock) (p : Prepared) (source : Option Text) (program : Option LogicProgram)
    → p.program ≡ program
    → IsProgramOf source program
    → ReportsSource source (apply_update_to block p).0
unfolding apply_update_to
reports_source block p none program e h = tt
reports_source block p (some source) none e h = absurd h
reports_source block p (some source) (some q) e h =
    apply_switch_revision (apply_program block p.program).2 p.update.enabled
    ∙ ap (λ x. active_logic_revision (apply_program block x).2.engine) e
    ∙ apply_program_revision block q
    ∙ h

reports_switch :
    (block : LogicBlock) (p : Prepared) (enabled : Option Bool)
    → p.update.enabled ≡ enabled
    → ReportsSwitch enabled (apply_update_to block p).0
unfolding apply_update_to
reports_switch block p none e = tt
reports_switch block p (some enabled) e =
    ap (λ x. (apply_switch (apply_program block p.program).2 x).1.config.enabled) e
    ∙ apply_switch_enabled (apply_program block p.program).2 enabled

err_not_ok {ℓ κ} : {E : Type ℓ} {A : Type κ} {x : E} {a : A} → err x ≡ ok a → ⊥
err_not_ok e = cc

map_ok_sound {ℓ κ μ} :
    {E : Type ℓ} {A : Type κ} {B : Type μ} (f : A → B) (r : Result E A) {b : B}
    → map_ok f r ≡ ok b
    → (a : A) × (r ≡ ok a) × (f a ≡ b)
map_ok_sound f (ok a) h = (a, refl, ground arith)
map_ok_sound f (err x) h = cc

-- The block of an update keeps its ID.
apply_program_id :
    (block : LogicBlock) (program : Option LogicProgram)
    → (apply_program block program).2.config.id ≡ block.config.id
unfolding apply_program reset_health
apply_program_id block none = refl
apply_program_id block (some p) =
    elim (Bool-cases (p.revision == active_logic_revision block.engine)) [
      | inl e ↦ rw (e, apply_program) refl
      | inr e ↦ rw (e, apply_program) refl
    ]

apply_switch_id :
    (block : LogicBlock) (enabled : Option Bool)
    → (apply_switch block enabled).1.config.id ≡ block.config.id
unfolding apply_switch set_enabled reset_health
apply_switch_id block none = refl
apply_switch_id block (some true) =
    elim (Bool-cases (is_switched (some true) block.config.enabled)) [
      | inl e ↦ rw (e, apply_switch) refl
      | inr e ↦ rw (e, apply_switch) refl
    ]
apply_switch_id block (some false) =
    elim (Bool-cases (is_switched (some false) block.config.enabled)) [
      | inl e ↦ rw (e, apply_switch) refl
      | inr e ↦ rw (e, apply_switch) refl
    ]

apply_update_to_id :
    (block : LogicBlock) (p : Prepared) → (apply_update_to block p).1.config.id ≡ block.config.id
unfolding apply_update_to
apply_update_to_id block p =
    apply_switch_id (apply_program block p.program).2 p.update.enabled
    ∙ apply_program_id block p.program

-- The runtime with the block of one update written
abbrev committed : Runtime → Prepared → LogicBlock → Runtime
committed runtime p block =
    commit_update runtime p.index (apply_update_to block p).1 (apply_update_to block p).0

-- The other blocks stay.
apply_all-kept :
    (prepared : List Prepared) (runtime : Runtime) (i : ℕ)
    → (get_elem? (apply_all prepared runtime).1.blocks i ≡ get_elem? runtime.blocks i)
      ⊎ ((p : Prepared) × In p prepared × (p.index ≡ i))
unfolding apply_all commit_update set_block
apply_all-kept [] runtime i = inl refl
apply_all-kept (p ∷ ps) runtime i = elim (Option-cases (get_elem? runtime.blocks p.index)) [
  | inl e ↦ rw (e, apply_all) (inl refl)
  | inr (block, e) ↦ elim (Bool-cases (p.index == i)) [
    | inl q ↦ inr (p, (0, refl), ground arith)
    | inr q ↦ elim (apply_all-kept ps (committed runtime p block) i) [
      | inr (other, listed, at) ↦ inr (other, In-suc other p ps listed, at)
      | inl kept ↦
          rw (e, apply_all)
            (inl (
              kept
              ∙ get_elem?-set_other runtime.blocks p.index i (apply_update_to block p).1
                  (λ h. ground arith)))
    ]
  ]
]

apply_all-untouched :
    (prepared : List Prepared) (runtime : Runtime) (i : ℕ)
    → All (λ p. i ≢ p.index) prepared
    → get_elem? (apply_all prepared runtime).1.blocks i ≡ get_elem? runtime.blocks i
apply_all-untouched prepared runtime i h = elim (apply_all-kept prepared runtime i) [
  | inl kept ↦ kept
  | inr (p, listed, at) ↦ absurd (All-In (λ q. i ≢ q.index) prepared p h listed (sym at))
]

committed-IsLocated :
    (runtime : Runtime) (p : Prepared) (block : LogicBlock) (ps : List Prepared)
    → All (λ q. p.index ≢ q.index) ps
    → All (IsLocated runtime) ps
    → All (IsLocated (committed runtime p block)) ps
unfolding commit_update set_block
committed-IsLocated runtime p block [] a l = tt
committed-IsLocated runtime p block (q ∷ qs) (apart, rest) ((found, g, named), l) = (
  (
    found,
    get_elem?-set_other runtime.blocks p.index q.index (apply_update_to block p).1 apart ∙ g,
    named,
  ),
  committed-IsLocated runtime p block qs rest l,
)

-- What one update wrote, once the rest of the batch is done
apply_all-Writes :
    (u : BlockActivation) (p : Prepared) (ps : List Prepared) (runtime : Runtime)
    (block : LogicBlock)
    → p.update ≡ u
    → IsProgramOf u.source p.program
    → get_elem? runtime.blocks p.index ≡ some block
    → block.config.id ≡ p.update.block_id
    → All (λ q. p.index ≢ q.index) ps
    → Writes u (apply_update_to block p).0 (apply_all ps (committed runtime p block)).1
unfolding apply_update_to commit_update set_block
apply_all-Writes u p ps runtime block same_update program g named apart =
    let of_update : p.update.block_id ≡ u.block_id = ap (λ x. x.block_id) same_update in
    let id = apply_update_to_id block p ∙ named ∙ of_update in
    (
      p.index,
      (apply_update_to block p).1,
      apply_all-untouched ps (committed runtime p block) p.index apart
          ∙ get_elem?-set_self runtime.blocks p.index (apply_update_to block p).1
              (get_elem?-lt runtime.blocks p.index g),
      id,
      id,
      refl,
      refl,
      reports_source block p u.source p.program refl program,
      reports_switch block p u.enabled (ap (λ x. x.enabled) same_update),
    )

apply_all-Reports :
    (updates : List BlockActivation) (prepared : List Prepared) (runtime : Runtime)
    {results : List BlockActivationResult}
    → ArePrepared updates prepared
    → AreApart prepared
    → All (IsLocated runtime) prepared
    → (apply_all prepared runtime).0 ≡ ok results
    → Reports updates results (apply_all prepared runtime).1
unfolding apply_all
apply_all-Reports [] [] runtime {results} a d l h =
    let nothing : [] ≡ results = ground arith in subst (λ rs. Reports [] rs runtime) nothing tt
apply_all-Reports [] (p ∷ ps) runtime a d l h = absurd a
apply_all-Reports (u ∷ us) [] runtime a d l h = absurd a
apply_all-Reports (u ∷ us) (p ∷ ps) runtime {results} (same_update, program, rest) (apart, d)
      ((block, e, named), l) h =
    let after = committed runtime p block in
    let (rs, q, same_results) =
      map_ok_sound (λ rs. (apply_update_to block p).0 ∷ rs) (apply_all ps after).0
        (rw (e, apply_all) at h) in
    rw (e, apply_all)
      (subst (λ xs. Reports (u ∷ us) xs (apply_all ps after).1) same_results
        (
          apply_all-Writes u p ps runtime block same_update program e named apart,
          apply_all-Reports us ps after {results = rs} rest d
              (committed-IsLocated runtime p block ps apart l) q,
        ))

update_of :
    (updates : List BlockActivation) (prepared : List Prepared) (p : Prepared)
    → ArePrepared updates prepared
    → In p prepared
    → In p.update updates
update_of [] [] p a (i, e) = cc
update_of [] (q ∷ qs) p a i = absurd a
update_of (u ∷ us) [] p a i = absurd a
update_of (u ∷ us) (q ∷ qs) p (same_update, program, rest) i = elim (In-head_or_tail p q qs i) [
  | inl head ↦ (0, ap some (sym same_update ∙ ap (λ x. x.update) head))
  | inr tail ↦ In-suc p.update u us (update_of us qs p rest tail)
]

apply_all-Keeps :
    (updates : List BlockActivation) (prepared : List Prepared) (runtime : Runtime) (i : ℕ)
    → ArePrepared updates prepared
    → All (IsLocated runtime) prepared
    → Keeps updates runtime (apply_all prepared runtime).1 i
apply_all-Keeps updates prepared runtime i a l = elim (apply_all-kept prepared runtime i) [
  | inl kept ↦ inl kept
  | inr (p, listed, at) ↦
      let (block, g, named) = All-In (IsLocated runtime) prepared p l listed in
      inr (
        p.update,
        block,
        update_of updates prepared p a listed,
        subst (λ n. get_elem? runtime.blocks n ≡ some block) at g,
        named,
      )
]

get_elem?-none {ℓ} : {A : Type ℓ} (xs : List A) (i : ℕ) → i < length xs → get_elem? xs i ≢ none
get_elem?-none [] i h e = absurd (omega (arith, h))
get_elem?-none (x ∷ xs) zero h e = cc
get_elem?-none (x ∷ xs) (suc i) h e = get_elem?-none xs i (omega (arith, h)) e

apply_all_total :
    (prepared : List Prepared) (runtime : Runtime) (n : ℕ)
    → length runtime.blocks ≡ n
    → All (λ p. p.index < n) prepared
    → (results : List BlockActivationResult) × ((apply_all prepared runtime).0 ≡ ok results)
unfolding apply_all commit_update set_block
apply_all_total [] runtime n e h = ([], refl)
apply_all_total (p ∷ ps) runtime n e h = elim (Option-cases (get_elem? runtime.blocks p.index)) [
  | inl g ↦ absurd (get_elem?-none runtime.blocks p.index (ground (arith, h.0)) g)
  | inr (block, g) ↦
      let after =
        commit_update runtime p.index (apply_update_to block p).1 (apply_update_to block p).0 in
      let (rs, q) =
        apply_all_total ps after n
          (length-set runtime.blocks p.index (apply_update_to block p).1 ∙ e) h.1 in
      (
        (apply_update_to block p).0 ∷ rs,
        rw (g, apply_all) (ap (map_ok (λ xs. (apply_update_to block p).0 ∷ xs)) q),
      )
]

-- A batch activation is refused with the runtime exactly as it was, or it is applied: for every update,
-- the runtime has a block of its ID, whose active revision and switch are the reported ones, the
-- revision being that of the given source and the switch the one asked for; and every block that no
-- update names is the one that was there.
pub activate_lem :
    (platform : Platform) (runtime : Runtime) (updates : List BlockActivation)
    → Activated runtime updates (activate platform runtime updates)
unfolding activate
activate_lem platform runtime updates = elim (Result-cases (prepare platform runtime [] updates)) [
  | inr (x, e) ↦ rw (e, activate) (inl (x, refl))
  | inl (prepared, e) ↦
      let (results, q) =
        apply_all_total prepared runtime (length runtime.blocks) refl
          (prepare-AreInRange platform runtime [] updates {prepared = prepared} e) in
      let sources = prepare-ArePrepared platform runtime [] updates {prepared = prepared} e in
      let (fresh, apart, located) =
        prepare-IsPlaced platform runtime [] updates {prepared = prepared} e in
      rw (e, activate)
        (inr (
          results,
          q,
          apply_all-Reports updates prepared runtime {results = results} sources apart located q,
          λ i. apply_all-Keeps updates prepared runtime i sources located,
        ))
]
