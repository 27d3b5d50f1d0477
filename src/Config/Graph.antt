-- ===== src/Config/Graph.antt =====
-- crates/logiksmith-core/src/blocks.rs: the graph of the blocks that signals connect, the search for a
-- cycle, and the size of a cascade.
pub mod Reach
pub mod Cycle
pub mod Size
use logik_smith.Prelude.{
  ℕ, zero, suc, ◌+◌, ◌-◌, ◌%◌, ◌^◌, Bool, true, false, Option, none, some, List, [], ◌∷◌, ◌++◌, any,
  position, length, unwrap_or, min, if◌then◌else◌,
}
use logik_smith.Prelude.Order.{list_ord, nat_ord, same}
use logik_smith.Prelude.Result.{Result, ok, err, ◌>>=◌}
use logik_smith.BTreeMap.{BTreeMap, get, insert}
use logik_smith.Identifiers.{BlockId}

abbrev pub Edges : Type 0
Edges = BTreeMap BlockId (List BlockId)

-- `out_of_fuel` is no outcome of the source: it marks a search cut short by the model.
pub data SearchError : Type 0 where
  cycle : List BlockId → SearchError
  out_of_fuel : SearchError

-- `BTreeSet::contains`
abbrev pub has : List BlockId → BlockId → Bool
has set id = any (λ other. same other id) set

-- `edges.get(id)`, with no children for a missing key
unfoldable pub children : Edges → BlockId → List BlockId
children edges id = unwrap_or (get id edges) []

-- `path[start..]`
unfoldable pub drop : ℕ → List BlockId → List BlockId
drop zero path = path
drop (suc n) [] = []
drop (suc n) (id ∷ path) = drop n path

unfoldable pub cycle_from : List BlockId → BlockId → List BlockId
unfolding drop
cycle_from path id = drop (unwrap_or (position (λ item. same item id) path) 0) path ++ id ∷ []

-- A loop with a state, left at the first error
unfoldable pub try_fold {ℓ κ μ} :
    {A : Type ℓ} {E : Type κ} {S : Type μ} → (A → S → Result E S) → List A → S → Result E S
try_fold step [] state = ok state
try_fold step (a ∷ rest) state = step a state >>= λ after. try_fold step rest after

-- `visit`. The nodes on the way, `visiting` and `path`, are restored on return; `visited` stays.
unfoldable pub visit :
    ℕ → Edges → BlockId → (visiting visited path : List BlockId) → Result SearchError (List BlockId)
unfolding cycle_from try_fold
visit zero edges id visiting visited path = err out_of_fuel
visit (suc fuel) edges id visiting visited path =
    let rest =
      try_fold (λ child seen. visit fuel edges child (id ∷ visiting) seen (path ++ id ∷ []))
        (children edges id) (id ∷ visited) in
    if has visiting id
    then err (cycle (cycle_from path id))
    else if has visited id
    then ok visited
    else rest

-- The body of the loop over the blocks
unfoldable pub visit_root : ℕ → Edges → BlockId → List BlockId → Result SearchError (List BlockId)
unfolding visit
visit_root fuel edges id visited =
    if has visited id then ok visited else visit fuel edges id [] visited []

-- `detect_signal_cycle`, on the IDs of the blocks. A path repeats no block, so that their number is
-- fuel enough.
unfoldable pub detect_signal_cycle : List BlockId → Edges → Result SearchError (List BlockId)
unfolding visit_root
detect_signal_cycle ids edges = try_fold (visit_root (suc (length ids)) edges) ids []
