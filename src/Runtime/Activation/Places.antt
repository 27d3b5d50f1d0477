-- ===== src/Runtime/Activation/Places.antt =====
-- The blocks that a checked batch writes: each update has its own, which has the ID of the update.
use logik_smith.Prelude.{
  ℕ, zero, suc, ◌≡◌, ◌≢◌, refl, Bool, true, false, some, List, [], ◌∷◌, ◌++◌, ◌&&◌, ◌||◌, ◌==◌, not,
  any, is_some, position, position_sound, get_elem?, set, All, arith, subst, ap,
}
use logik_smith.Prelude.Order.{list_ord, nat_ord, same, same_iff}
use logik_smith.Prelude.Result.{ok, >>=-eq-ok, reject, ok_or}
use logik_smith.Lua.{Platform}
use logik_smith.Block.{LogicBlock}
use logik_smith.Runtime.{Runtime}
use logik_smith.Runtime.Activation.{BlockActivation, Prepared, prepare_program, prepare}

-- The block at the index of an update has its ID.
abbrev pub IsLocated : Runtime → Prepared → Type 0
IsLocated runtime p =
    (block : LogicBlock) × (get_elem? runtime.blocks p.index ≡ some block)
    × (block.config.id ≡ p.update.block_id)

-- The updates are of different blocks.
abbrev pub AreApart : List Prepared → Type 0
AreApart [] = Unit
AreApart (p ∷ ps) = All (λ q. p.index ≢ q.index) ps × AreApart ps

abbrev is_met : List ℕ → ℕ → Bool
is_met indexes index = any (λ other. other == index) indexes

is_met-append :
    (indexes : List ℕ) (last index : ℕ)
    → is_met (indexes ++ last ∷ []) index ≡ (is_met indexes index || (last == index))
is_met-append [] last index = ground arith
is_met-append (first ∷ indexes) last index = ground (arith, is_met-append indexes last index)

after_index :
    (indexes : List ℕ) (index : ℕ) (ps : List Prepared)
    → All (λ p. is_met (indexes ++ index ∷ []) p.index ≡ false) ps
    → All (λ p. is_met indexes p.index ≡ false) ps × All (λ p. index ≢ p.index) ps
after_index indexes index [] h = (tt, tt)
after_index indexes index (p ∷ ps) (h, hs) =
    let (old, new) = after_index indexes index ps hs in
    let both = is_met-append indexes index p.index in
    ((ground arith, old), ((λ e. ground arith), new))

reject-ok :
    {E : Type 0} (broken : Bool) (e : E) {u : Unit} → reject broken e ≡ ok u → broken ≡ false
reject-ok false e h = refl
reject-ok true e h = cc

module _ (platform : Platform) (runtime : Runtime) where
  abbrev IsPlaced : List ℕ → List Prepared → Type 0
  IsPlaced indexes ps =
      All (λ (p : Prepared). is_met indexes p.index ≡ false) ps
      × AreApart ps
      × All (IsLocated runtime) ps

  -- Every update of a checked batch has a block of its own.
  pub prepare-IsPlaced :
      (indexes : List ℕ) (updates : List BlockActivation) {prepared : List Prepared}
      → prepare platform runtime indexes updates ≡ ok prepared
      → IsPlaced indexes prepared
  unfolding prepare
  prepare-IsPlaced indexes [] {prepared} h =
      let nothing : [] ≡ prepared = ground arith in subst (IsPlaced indexes) nothing (tt, tt, tt)
  prepare-IsPlaced indexes (u ∷ us) {prepared} h =
      let (a, p, h1) =
        >>=-eq-ok (reject (not (is_some u.source) && not (is_some u.enabled)) _) _ h in
      let (index, q, h2) =
        >>=-eq-ok (ok_or (position (λ block. same block.config.id u.block_id) runtime.blocks) _) _
          h1 in
      let (b, r, h3) = >>=-eq-ok (reject (any (λ other. other == index) indexes) _) _ h2 in
      let (program, t, h4) = >>=-eq-ok (prepare_program platform runtime.limits u) _ h3 in
      let (rest, v, h5) = >>=-eq-ok (prepare platform runtime (indexes ++ index ∷ []) us) _ h4 in
      let (block, g, named) =
        position_sound (λ block. same block.config.id u.block_id) runtime.blocks {i = index}
          (ground arith) in
      let (fresh, apart, located) =
        prepare-IsPlaced (indexes ++ index ∷ []) us {prepared = rest} v in
      let (old, new) = after_index indexes index rest fresh in
      let same_list : (record { update = u; index = index; program = program } ∷ rest) ≡ prepared =
        ground arith in
      subst (IsPlaced indexes) same_list (
        (reject-ok (is_met indexes index) _ r, old),
        (new, apart),
        ((block, g, (same_iff block.config.id u.block_id).0 named), located),
      )

pub get_elem?-set_other {ℓ} :
    {A : Type ℓ} (xs : List A) (i j : ℕ) (v : A) → i ≢ j → get_elem? (set xs i v) j ≡ get_elem? xs j
get_elem?-set_other [] i j v h = refl
get_elem?-set_other (x ∷ xs) zero zero v h = absurd (h refl)
get_elem?-set_other (x ∷ xs) zero (suc j) v h = refl
get_elem?-set_other (x ∷ xs) (suc i) zero v h = refl
get_elem?-set_other (x ∷ xs) (suc i) (suc j) v h = get_elem?-set_other xs i j v (λ e. h (ap suc e))
