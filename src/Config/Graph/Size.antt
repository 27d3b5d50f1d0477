-- ===== src/Config/Graph/Size.antt =====
-- crates/logiksmith-core/src/blocks.rs: `cascade_size`, which without a cycle
-- ends within its fuel.
use logik_smith.Prelude.{
  ℕ, zero, suc, ◌+◌, ◌-◌, ◌%◌, ◌^◌, ◌<◌, ◌≡◌, refl, true, false, none, some, List, [], ◌∷◌, length,
  min, arith, Bool-cases, Option-cases, inl, inr, ltb, if◌then◌else◌,
}
use logik_smith.Prelude.Order.{list_ord, nat_ord, same_refl}
use logik_smith.Prelude.Result.{Result, ok, err, ◌>>=◌}
use logik_smith.BTreeMap.{BTreeMap, get, insert}
use logik_smith.Identifiers.{BlockId}
use logik_smith.Config.Graph.{Edges, SearchError, out_of_fuel, has, children, try_fold}
use logik_smith.Config.Graph.Reach.{Reaches, missing, missing_lt}
use logik_smith.Config.Graph.Cycle.{IsClosed, LeadTo, LeadTo-child, missing-length}

abbrev pub Memo : Type 0
Memo = BTreeMap BlockId ℕ

-- The sum over the children wraps at 64 bits; only the 1 for the block itself is added with saturation.
unfoldable pub add_size : ℕ → ℕ × Memo → Result SearchError (ℕ × Memo)
add_size total (size, memo) = ok ((total + size) % 2 ^ 64, memo)

unfoldable pub remember : BlockId → ℕ × Memo → Result SearchError (ℕ × Memo)
remember id (total, memo) =
    let size = min (1 + total) (2 ^ 64 - 1) in ok (size, insert id size memo)

unfoldable pub cascade_size : ℕ → Edges → BlockId → Memo → Result SearchError (ℕ × Memo)
unfolding add_size remember try_fold
cascade_size zero edges id memo = err out_of_fuel
cascade_size (suc fuel) edges id memo =
    let rest =
      try_fold (λ child state. cascade_size fuel edges child state.1 >>= add_size state.0)
        (children edges id) (0, memo)
      >>= remember id in
    elim (get id memo) [ some size ↦ ok (size, memo) | none ↦ rest ]

-- The greatest size, each with a memo of its own
unfoldable pub largest_cascade : ℕ → Edges → List BlockId → Result SearchError ℕ
unfolding cascade_size
largest_cascade fuel edges [] = ok 0
largest_cascade fuel edges (id ∷ ids) = cascade_size fuel edges id [] >>= λ size.
    largest_cascade fuel edges ids >>= λ others. ok (if ltb others size.0 then size.0 else others)

abbrev pub Succeeds {ℓ} : {A : Type ℓ} → Result SearchError A → Type ℓ
Succeeds {A = A} r = (a : A) × (r ≡ ok a)

Succeeds-bind {ℓ κ} :
    {A : Type ℓ} {B : Type κ} (r : Result SearchError A) (k : A → Result SearchError B)
    → Succeeds r
    → ((a : A) → Succeeds (k a))
    → Succeeds (r >>= k)
Succeeds-bind (ok a) k h g = g a
Succeeds-bind (err e) k (a, h) g = cc

try_fold-Succeeds {ℓ} :
    {S : Type ℓ} (step : BlockId → S → Result SearchError S) (nodes : List BlockId) (s : S)
    → ((child : BlockId) (state : S) → has nodes child ≡ true → Succeeds (step child state))
    → Succeeds (try_fold step nodes s)
unfolding try_fold
try_fold-Succeeds step [] s h = (s, refl)
try_fold-Succeeds step (node ∷ rest) s h =
    Succeeds-bind (step node s) (try_fold step rest) (h node s (ground (arith, same_refl node)))
      λ after. try_fold-Succeeds step rest after (λ child state k. h child state (ground arith))

module _ (ids : List BlockId) (edges : Edges) (closed : IsClosed ids edges)
    (acyclic : (id : BlockId) → ¬ Reaches edges id id) where
  fresh :
      (id : BlockId) (path : List BlockId)
      → has ids id ≡ true
      → LeadTo ids edges path id
      → has path id ≡ false
  fresh id path i l = elim (Bool-cases (has path id)) [
    | inl q ↦ absurd (acyclic id (l id q))
    | inr q ↦ q
  ]

  add_size-Succeeds : (total : ℕ) (r : ℕ × Memo) → Succeeds (add_size total r)
  unfolding add_size
  add_size-Succeeds total (size, memo) = (_, refl)

  remember-Succeeds : (id : BlockId) (r : ℕ × Memo) → Succeeds (remember id r)
  unfolding remember
  remember-Succeeds id (total, memo) = (_, refl)

  cascade_size-Succeeds :
      (fuel : ℕ) (id : BlockId) (path : List BlockId) (memo : Memo)
      → has ids id ≡ true
      → LeadTo ids edges path id
      → missing ids path < fuel
      → Succeeds (cascade_size fuel edges id memo)
  unfolding cascade_size
  cascade_size-Succeeds zero id path memo i l m = absurd (omega arith)
  cascade_size-Succeeds (suc fuel) id path memo i l m = elim (Option-cases (get id memo)) [
    | inr (size, e) ↦ rw (e, cascade_size) ((size, memo), refl)
    | inl e ↦
        rw (e, cascade_size)
          (Succeeds-bind _ (remember id)
            (try_fold-Succeeds _ (children edges id) (0, memo)
              (λ child state k.
                Succeeds-bind (cascade_size fuel edges child state.1) (add_size state.0)
                  (cascade_size-Succeeds fuel child (id ∷ path) state.1 (closed id child k)
                    (LeadTo-child ids edges path id child l k)
                    (omega (arith, m, missing_lt ids path id i (fresh id path i l))))
                  (add_size-Succeeds state.0)))
            (remember-Succeeds id))
  ]

  pub largest_cascade-Succeeds :
      (nodes : List BlockId)
      → ((id : BlockId) → has nodes id ≡ true → has ids id ≡ true)
      → Succeeds (largest_cascade (suc (length ids)) edges nodes)
  unfolding largest_cascade
  largest_cascade-Succeeds [] h = (0, refl)
  largest_cascade-Succeeds (id ∷ nodes) h =
      Succeeds-bind (cascade_size (suc (length ids)) edges id []) _
        (cascade_size-Succeeds (suc (length ids)) id [] [] (h id (ground (arith, same_refl id)))
          (λ other k. cc) (omega (arith, missing-length ids)))
        λ size.
          Succeeds-bind (largest_cascade (suc (length ids)) edges nodes) _
            (largest_cascade-Succeeds nodes (λ other k. h other (ground arith)))
            (λ others. (_, refl))
