-- ===== src/Runtime/Activation/Prepare.antt =====
-- What the checks of a batch establish: the program of each source, and the index of a block.
use logik_smith.Prelude.{
  ℕ, ◌<◌, length, position_sound, get_elem?-lt, ◌≡◌, refl, Option, none, some, List, [], ◌∷◌, ◌++◌,
  ◌&&◌, ◌==◌, not, any, is_some, position, All, arith, inl, inr, subst,
}
use logik_smith.Prelude.Order.{list_ord, nat_ord, same}
use logik_smith.Prelude.Result.{ok, >>=-eq-ok, Result-cases, reject, ok_or}
use logik_smith.Text.{Text}
use logik_smith.Program.{LogicProgram, revision_for}
use logik_smith.Lua.{Platform}
use logik_smith.Engine.Activate.{try_new_program}
use logik_smith.Engine.Activation.{try_new_program_sound}
use logik_smith.Runtime.{Runtime}
use logik_smith.Runtime.Activation.{BlockActivation, Prepared, prepare_program, prepare}

-- A checked update has the program of its source.
abbrev pub IsProgramOf : Option Text → Option LogicProgram → Type 0
IsProgramOf none none = Unit
IsProgramOf none (some p) = ⊥
IsProgramOf (some source) none = ⊥
IsProgramOf (some source) (some p) = p.revision ≡ revision_for source

abbrev pub ArePrepared : List BlockActivation → List Prepared → Type 0
ArePrepared [] [] = Unit
ArePrepared [] (p ∷ ps) = ⊥
ArePrepared (u ∷ us) [] = ⊥
ArePrepared (u ∷ us) (p ∷ ps) = (p.update ≡ u) × IsProgramOf u.source p.program × ArePrepared us ps

module _ (platform : Platform) (runtime : Runtime) where
  prepare_program-IsProgramOf :
      (update : BlockActivation) (source : Option Text) {program : Option LogicProgram}
      → update.source ≡ source
      → prepare_program platform runtime.limits update ≡ ok program
      → IsProgramOf source program
  unfolding prepare_program
  prepare_program-IsProgramOf update none {program} e h =
      let absent : none ≡ program = ground arith in subst (IsProgramOf none) absent tt
  prepare_program-IsProgramOf update (some source) {program} e h =
      elim (Result-cases (try_new_program platform source runtime.limits)) [
        | inr (x, q) ↦ absurd (ground arith)
        | inl (p, q) ↦
            let (a, b) = try_new_program_sound platform source runtime.limits {program = p} q in
            let same_program : some p ≡ program = ground arith in
            subst (IsProgramOf (some source)) same_program b
      ]

  pub prepare-ArePrepared :
      (indexes : List ℕ) (updates : List BlockActivation) {prepared : List Prepared}
      → prepare platform runtime indexes updates ≡ ok prepared
      → ArePrepared updates prepared
  unfolding prepare
  prepare-ArePrepared indexes [] {prepared} h =
      let nothing : [] ≡ prepared = ground arith in subst (ArePrepared []) nothing tt
  prepare-ArePrepared indexes (u ∷ us) {prepared} h =
      let (a, p, h1) =
        >>=-eq-ok (reject (not (is_some u.source) && not (is_some u.enabled)) _) _ h in
      let (index, q, h2) =
        >>=-eq-ok (ok_or (position (λ block. same block.config.id u.block_id) runtime.blocks) _) _
          h1 in
      let (b, r, h3) = >>=-eq-ok (reject (any (λ other. other == index) indexes) _) _ h2 in
      let (program, t, h4) = >>=-eq-ok (prepare_program platform runtime.limits u) _ h3 in
      let (rest, v, h5) = >>=-eq-ok (prepare platform runtime (indexes ++ index ∷ []) us) _ h4 in
      let same_list : (record { update = u; index = index; program = program } ∷ rest) ≡ prepared =
        ground arith in
      subst (ArePrepared (u ∷ us)) same_list (
        refl,
        prepare_program-IsProgramOf u u.source {program = program} refl t,
        prepare-ArePrepared (indexes ++ index ∷ []) us {prepared = rest} v,
      )

-- Every index of a checked batch is that of a block, and blocks are not lost.
pub prepare-AreInRange :
    (platform : Platform) (runtime : Runtime) (indexes : List ℕ) (updates : List BlockActivation)
    {prepared : List Prepared}
    → prepare platform runtime indexes updates ≡ ok prepared
    → All (λ p. p.index < length runtime.blocks) prepared
unfolding prepare
prepare-AreInRange platform runtime indexes [] {prepared} h =
    let nothing : [] ≡ prepared = ground arith in
    subst (All (λ p. p.index < length runtime.blocks)) nothing tt
prepare-AreInRange platform runtime indexes (u ∷ us) {prepared} h =
    let (a, p, h1) = >>=-eq-ok (reject (not (is_some u.source) && not (is_some u.enabled)) _) _ h in
    let (index, q, h2) =
      >>=-eq-ok (ok_or (position (λ block. same block.config.id u.block_id) runtime.blocks) _) _
        h1 in
    let (b, r, h3) = >>=-eq-ok (reject (any (λ other. other == index) indexes) _) _ h2 in
    let (program, t, h4) = >>=-eq-ok (prepare_program platform runtime.limits u) _ h3 in
    let (rest, v, h5) = >>=-eq-ok (prepare platform runtime (indexes ++ index ∷ []) us) _ h4 in
    let (block, g, named) =
      position_sound (λ block. same block.config.id u.block_id) runtime.blocks {i = index}
        (ground arith) in
    let same_list : (record { update = u; index = index; program = program } ∷ rest) ≡ prepared =
      ground arith in
    subst (All (λ p. p.index < length runtime.blocks)) same_list (
      get_elem?-lt runtime.blocks index g,
      prepare-AreInRange platform runtime (indexes ++ index ∷ []) us {prepared = rest} v,
    )
