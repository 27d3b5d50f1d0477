-- ===== src/Config/Sound.antt =====
-- What a runtime configuration is worth that passed the validation.
use logik_smith.Prelude.{
  suc, ℕ, ◌≡◌, ◌≢◌, ◌≤◌, inl, inr, refl, Bool, true, false, ◌||◌, List, [], ◌∷◌, ◌++◌, any, length,
  arith, subst, sym, ◌∙◌, All, ltb,
}
use logik_smith.Prelude.MinBy.{In}
use logik_smith.Prelude.Order.{list_ord, nat_ord, same, same_refl}
use logik_smith.Prelude.Result.{Result, ok, err, >>=-eq-ok, reject, map_err, err-ne-ok}
use logik_smith.Identifiers.{BlockId}
use logik_smith.Limits.{RuntimeLimits}
use logik_smith.Block.{BlockConfig}
use logik_smith.Lua.{Platform}
use logik_smith.Config.{
  cascade_too_large, ids_of, RuntimeConfig, no_blocks, too_many, too_many_signals,
  too_many_signal_bindings, too_much_logic_source, collect_edges, Binding, Producers, bindings_of,
  identity_of, collect_producers, check_graph, check_signals, check_blocks, validate_runtime,
  validate_block, binding_count, source_bytes, is_empty, duplicate_id, invalid_block,
}
use logik_smith.Config.Graph.Size.{largest_cascade}
use logik_smith.Config.Graph.Reach.{Reaches}
use logik_smith.Config.Wiring.{IsProducer}
use logik_smith.Config.Accepted.{Leads, Leads-Reaches, one_producer}
use logik_smith.Config.Validation.{check_graph_cases}

reject-ok {ℓ} :
    {E : Type ℓ} (broken : Bool) (e : E) {u : Unit} → reject broken e ≡ ok u → broken ≡ false
reject-ok false e h = refl
reject-ok true e h = cc

map_err-ok {ℓ κ} :
    {E : Type ℓ} {F : Type κ} (f : E → F) (r : Result E (Unit {0})) {u : Unit}
    → map_err f r ≡ ok u
    → r ≡ ok tt
map_err-ok f (ok tt) h = refl
map_err-ok f (err e) h = cc

-- No block has the ID of a later one.
abbrev pub HaveDistinctIds : List BlockConfig → Type 0
HaveDistinctIds [] = Unit
HaveDistinctIds (block ∷ rest) = All (λ other. block.id ≢ other.id) rest × HaveDistinctIds rest

abbrev ids_clash : List BlockConfig → BlockConfig → Bool
ids_clash before block = any (λ other. same other.id block.id) before

ids_clash-append :
    (before : List BlockConfig) (last block : BlockConfig)
    → ids_clash (before ++ last ∷ []) block ≡ (ids_clash before block || same last.id block.id)
ids_clash-append [] last block = ground arith
ids_clash-append (first ∷ before) last block = ground (arith, ids_clash-append before last block)

after_block :
    (before : List BlockConfig) (block : BlockConfig) (rest : List BlockConfig)
    → All (λ other. ids_clash (before ++ block ∷ []) other ≡ false) rest
    → All (λ other. ids_clash before other ≡ false) rest × All (λ other. block.id ≢ other.id) rest
after_block before block [] h = (tt, tt)
after_block before block (other ∷ rest) (h, hs) =
    let (old, new) = after_block before block rest hs in
    let both = ids_clash-append before block other in
    (
      (ground arith, old),
      (
        λ e. let q = subst (λ id. same block.id id ≡ true) e (same_refl block.id) in ground arith,
        new,
      ),
    )

module _ (platform : Platform) (astronomy : Bool) (limits : RuntimeLimits) where
  check_blocks_sound :
      (before blocks : List BlockConfig)
      → check_blocks platform astronomy limits before blocks ≡ ok tt
      → All (λ block. ids_clash before block ≡ false) blocks
        × All (λ block. validate_block platform astronomy block limits ≡ ok tt) blocks
        × HaveDistinctIds blocks
  unfolding check_blocks
  check_blocks_sound before [] h = (tt, tt, tt)
  check_blocks_sound before (block ∷ rest) h =
      let (u, e, k) = >>=-eq-ok (reject (ids_clash before block) (duplicate_id block.id)) _ h in
      let (v, f, l) =
        >>=-eq-ok
          (map_err (invalid_block block.id) (validate_block platform astronomy block limits)) _ k in
      let (fresh, valid, distinct) = check_blocks_sound (before ++ block ∷ []) rest l in
      let (old, new) = after_block before block rest fresh in
      (
        (reject-ok (ids_clash before block) (duplicate_id block.id) e, old),
        (
          map_err-ok (invalid_block block.id) (validate_block platform astronomy block limits) f,
          valid,
        ),
        (new, distinct),
      )

  -- Every number, with the size of the largest cascade, is within its limit, every block passed its own validation, no two blocks share an
  -- ID, no two output endpoints have one signal, and no block feeds itself through other blocks.
  pub record IsSound (config : RuntimeConfig) : Type 0 where
    pub some_block : config.blocks ≢ []
    pub blocks : length config.blocks ≤ limits.max_logic_blocks
    pub signals : length config.signals ≤ limits.max_signals
    pub bindings : binding_count config.blocks ≤ limits.max_signal_bindings
    pub source : source_bytes config.blocks ≤ limits.max_logic_source_bytes_total
    pub valid : All (λ block. validate_block platform astronomy block limits ≡ ok tt) config.blocks
    pub distinct : HaveDistinctIds config.blocks
    pub one_output :
        (p q : Binding)
        → In p (bindings_of config.blocks)
        → In q (bindings_of config.blocks)
        → IsProducer p
        → IsProducer q
        → p.1.signal ≡ q.1.signal
        → identity_of p ≡ identity_of q
    pub cascade :
        (producers : Producers) × (collect_producers config.signals (bindings_of config.blocks) []
          ≡ ok producers)
        × (size : ℕ) × (largest_cascade
              (suc (length (ids_of config.blocks)))
              (collect_edges producers (bindings_of config.blocks) [])
              (ids_of config.blocks)
            ≡ ok size)
        × (size ≤ limits.max_cascade_executions)
    pub acyclic : (id : BlockId) → ¬ Leads config.blocks id id

  check_graph_sound :
      (blocks : List BlockConfig) (producers : Producers)
      → check_graph limits blocks producers ≡ ok tt
      → ((size : ℕ) × (largest_cascade
              (suc (length (ids_of blocks)))
              (collect_edges producers (bindings_of blocks) [])
              (ids_of blocks)
            ≡ ok size)
          × (size ≤ limits.max_cascade_executions))
        × ((id : BlockId) → ¬ Reaches (collect_edges producers (bindings_of blocks) []) id id)
  check_graph_sound blocks producers h = elim (check_graph_cases limits blocks producers) [
    | inl (size, e, f, acyclic) ↦
        let small =
          reject-ok (ltb limits.max_cascade_executions size)
            (cascade_too_large size limits.max_cascade_executions) (sym e ∙ h) in
        ((size, f, (ground arith)), acyclic)
    | inr (path, e) ↦ absurd (err-ne-ok (sym e ∙ h))
  ]

  within : (number limit : ℕ) → ltb limit number ≡ false → number ≤ limit
  within number limit h = ground arith

  -- A configuration that the validation accepts is sound: the numbers of its blocks, signals and
  -- bindings, the bytes of its sources and the size of the largest cascade are within their limits,
  -- every block passes its own validation, no two blocks share an ID, no two output endpoints have one
  -- signal, and no block feeds itself through a chain of signals.
  pub validate_runtime-IsSound :
      (config : RuntimeConfig)
      → validate_runtime platform astronomy config limits ≡ ok tt
      → IsSound config
  unfolding validate_runtime
  validate_runtime-IsSound config h =
      let (u1, e1, h1) = >>=-eq-ok (reject (is_empty config.blocks) no_blocks) _ h in
      let (u2, e2, h2) =
        >>=-eq-ok
          (reject (ltb limits.max_logic_blocks (length config.blocks))
            (too_many (length config.blocks) limits.max_logic_blocks))
          _ h1 in
      let (u3, e3, h3) =
        >>=-eq-ok
          (reject (ltb limits.max_signals (length config.signals))
            (too_many_signals (length config.signals) limits.max_signals))
          _ h2 in
      let (u4, e4, h4) = >>=-eq-ok (check_signals [] config.signals) _ h3 in
      let (u5, e5, h5) =
        >>=-eq-ok
          (reject (ltb limits.max_signal_bindings (binding_count config.blocks))
            (too_many_signal_bindings (binding_count config.blocks) limits.max_signal_bindings))
          _ h4 in
      let (u6, e6, h6) = >>=-eq-ok (check_blocks platform astronomy limits [] config.blocks) _ h5 in
      let (u7, e7, h7) =
        >>=-eq-ok
          (reject (ltb limits.max_logic_source_bytes_total (source_bytes config.blocks)) (
            too_much_logic_source (source_bytes config.blocks) limits.max_logic_source_bytes_total))
          _ h6 in
      let (producers, e8, h8) =
        >>=-eq-ok (collect_producers config.signals (bindings_of config.blocks) []) _ h7 in
      let (fresh, valid, distinct) = check_blocks_sound [] config.blocks e6 in
      record {
        some_block =
            λ e. none_left config.blocks e (reject-ok (is_empty config.blocks) no_blocks e1);
        blocks = within (length config.blocks) limits.max_logic_blocks (reject-ok _ _ e2);
        signals = within (length config.signals) limits.max_signals (reject-ok _ _ e3);
        bindings =
            within (binding_count config.blocks) limits.max_signal_bindings (reject-ok _ _ e5);
        source =
            within (source_bytes config.blocks) limits.max_logic_source_bytes_total
              (reject-ok _ _ e7);
        valid = valid;
        distinct = distinct;
        one_output = one_producer config.signals config.blocks producers e8;
        cascade =
            let (size, found, small) = (check_graph_sound config.blocks producers h8).0 in
            (producers, e8, size, found, small);
        acyclic = λ id loop.
            (check_graph_sound config.blocks producers h8).1 id
              (Leads-Reaches config.signals config.blocks producers e8 id id loop);
      }
    where
      none_left : (blocks : List BlockConfig) → blocks ≡ [] → is_empty blocks ≡ false → ⊥
      none_left [] e f = cc
      none_left (block ∷ blocks) e f = cc
