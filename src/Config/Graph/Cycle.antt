-- ===== src/Config/Graph/Cycle.antt =====
-- The search for a cycle decides whether the edges form one, where every consumer is a block, and its
-- fuel is enough.
use logik_smith.Prelude.{
  ℕ, zero, suc, ◌<◌, ◌≡◌, refl, true, false, List, [], ◌∷◌, ◌++◌, length, arith, Bool-cases, inl,
  inr, ◌⊎◌, subst,
}
use logik_smith.Prelude.Order.{list_ord, nat_ord, same, same_refl, same_iff}
use logik_smith.Prelude.Result.{Result, ok, err, ◌>>=◌}
use logik_smith.Identifiers.{BlockId}
use logik_smith.Config.Graph.{
  Edges, SearchError, cycle, out_of_fuel, has, children, try_fold, visit, visit_root,
  detect_signal_cycle,
}
use logik_smith.Config.Graph.Reach.{
  IsEdge, Reaches, edge, onward, Ends, all_end, missing, missing_mono, missing_lt, Within,
  Ends-irreflexive,
}

module _ (ids : List BlockId) (edges : Edges) where
  -- Every consumer of a signal is a block.
  abbrev pub IsClosed : Type 0
  IsClosed = (a b : BlockId) → IsEdge edges a b → has ids b ≡ true

  -- Every visited block is on the way, or ends.
  abbrev AreDone : List BlockId → List BlockId → Type 0
  AreDone visiting visited =
      (id : BlockId) → has visited id ≡ true → (has visiting id ≡ true) ⊎ Ends edges id

  -- A search that went well keeps what was visited, and every visited block is on the way or ends; a
  -- search that failed found a walk from a block to itself.
  abbrev Searched :
      List BlockId → List BlockId → Type 0 → Result SearchError (List BlockId) → Type 0
  Searched visiting visited Goal (ok after) = Within visited after × AreDone visiting after × Goal
  Searched visiting visited Goal (err (cycle path)) = (id : BlockId) × Reaches edges id id
  Searched visiting visited Goal (err out_of_fuel) = ⊥

  Searched-Within :
      (visiting before seen : List BlockId) (Goal : Type 0) (r : Result SearchError (List BlockId))
      → Within before seen
      → Searched visiting seen Goal r
      → Searched visiting before Goal r
  Searched-Within visiting before seen Goal (ok after) w (v, d, g) = ((λ id k. v id (w id k)), d, g)
  Searched-Within visiting before seen Goal (err (cycle path)) w h = h
  Searched-Within visiting before seen Goal (err out_of_fuel) w h = h

  Searched-map :
      (visiting seen : List BlockId) (A B : Type 0) (r : Result SearchError (List BlockId))
      → (A → B)
      → Searched visiting seen A r
      → Searched visiting seen B r
  Searched-map visiting seen A B (ok after) f (v, d, a) = (v, d, f a)
  Searched-map visiting seen A B (err (cycle path)) f h = h
  Searched-map visiting seen A B (err out_of_fuel) f h = h

  -- A step of a search, and the rest of it
  Searched-bind :
      (visiting seen : List BlockId) (A B : Type 0) (r : Result SearchError (List BlockId))
      (rest : List BlockId → Result SearchError (List BlockId))
      → Searched visiting seen A r
      → ((after : List BlockId)
          → Within seen after
          → AreDone visiting after
          → A
          → Searched visiting after B (rest after))
      → Searched visiting seen B (r >>= rest)
  Searched-bind visiting seen A B (ok after) rest (v, d, a) k =
      Searched-Within visiting seen after B (rest after) v (k after v d a)
  Searched-bind visiting seen A B (err (cycle path)) rest h k = h
  Searched-bind visiting seen A B (err out_of_fuel) rest h k = h

  abbrev AllEnd : List BlockId → Type 0
  AllEnd nodes = (child : BlockId) → has nodes child ≡ true → Ends edges child

  AllEnd-cons :
      (node : BlockId) (rest : List BlockId) → Ends edges node → AllEnd rest → AllEnd (node ∷ rest)
  AllEnd-cons node rest e all child k = elim (Bool-cases (same node child)) [
    | inl q ↦ subst (Ends edges) ((same_iff node child).0 q) e
    | inr q ↦ all child (ground arith)
  ]

  -- The loop over the children
  try_fold-Searched :
      (step : BlockId → List BlockId → Result SearchError (List BlockId)) (fuel : ℕ)
      (visiting nodes seen : List BlockId)
      → ((child : BlockId) (s : List BlockId)
          → has nodes child ≡ true
          → AreDone visiting s
          → missing ids s < fuel
          → Searched visiting s (Ends edges child) (step child s))
      → AreDone visiting seen
      → missing ids seen < fuel
      → Searched visiting seen (AllEnd nodes) (try_fold step nodes seen)
  unfolding try_fold
  try_fold-Searched step fuel visiting [] seen h d m = ((λ id k. k), d, λ child k. cc)
  try_fold-Searched step fuel visiting (node ∷ rest) seen h d m =
      Searched-bind visiting seen (Ends edges node) (AllEnd (node ∷ rest)) (step node seen)
        (try_fold step rest) (h node seen (ground (arith, same_refl node)) d m)
        λ after w done e.
          Searched-map visiting after (AllEnd rest) (AllEnd (node ∷ rest))
            (try_fold step rest after) (AllEnd-cons node rest e)
            (try_fold-Searched step fuel visiting rest after (λ child s k. h child s (ground arith))
              done (omega (arith, m, missing_mono ids seen after w)))

  -- The block itself, when its children end
  Searched-leave :
      (id : BlockId) (visiting visited : List BlockId) (r : Result SearchError (List BlockId))
      → Searched (id ∷ visiting) (id ∷ visited) (AllEnd (children edges id)) r
      → Searched visiting visited (Ends edges id) r
  Searched-leave id visiting visited (err (cycle path)) h = h
  Searched-leave id visiting visited (err out_of_fuel) h = h
  Searched-leave id visiting visited (ok after) (w, d, all) =
      let ends : Ends edges id = all_end (λ b e. all b e) in
      (
        λ b k. w b (ground arith),
        λ b k. elim (d b k) [
          | inr e ↦ inr e
          | inl q ↦ elim (Bool-cases (same id b)) [
            | inl p ↦ inr (subst (Ends edges) ((same_iff id b).0 p) ends)
            | inr p ↦ inl (ground arith)
          ]
        ],
        ends,
      )

  -- Every block on the way leads to the one that is visited.
  abbrev pub LeadTo : List BlockId → BlockId → Type 0
  LeadTo visiting id = (other : BlockId) → has visiting other ≡ true → Reaches edges other id

  pub LeadTo-child :
      (visiting : List BlockId) (id child : BlockId)
      → LeadTo visiting id
      → IsEdge edges id child
      → LeadTo (id ∷ visiting) child
  LeadTo-child visiting id child l e other k = elim (Bool-cases (same id other)) [
    | inl q ↦ subst (λ a. Reaches edges a child) ((same_iff id other).0 q) (edge e)
    | inr q ↦ onward (l other (ground arith)) e
  ]

  AreDone-enter :
      (id : BlockId) (visiting visited : List BlockId)
      → AreDone visiting visited
      → AreDone (id ∷ visiting) (id ∷ visited)
  AreDone-enter id visiting visited d b k = elim (Bool-cases (same id b)) [
    | inl q ↦ inl (ground arith)
    | inr q ↦ elim (d b (ground arith)) [ inl v ↦ inl (ground arith) | inr e ↦ inr e ]
  ]

  ended :
      (id : BlockId) (visiting visited : List BlockId)
      → AreDone visiting visited
      → has visited id ≡ true
      → has visiting id ≡ false
      → Ends edges id
  ended id visiting visited d k e = elim (d id k) [ inr h ↦ h | inl h ↦ cc ]

  visit-Searched :
      (fuel : ℕ) (id : BlockId) (visiting visited path : List BlockId)
      → IsClosed
      → has ids id ≡ true
      → LeadTo visiting id
      → AreDone visiting visited
      → missing ids visited < fuel
      → Searched visiting visited (Ends edges id) (visit fuel edges id visiting visited path)
  unfolding visit
  visit-Searched zero id visiting visited path c i l d m = absurd (omega arith)
  visit-Searched (suc fuel) id visiting visited path c i l d m =
      elim (Bool-cases (has visiting id)) [
        | inl e ↦ rw (e, visit) (id, l id e)
        | inr e ↦ elim (Bool-cases (has visited id)) [
          | inl f ↦ rw (e, f, visit) ((λ b k. k), d, ended id visiting visited d f e)
          | inr f ↦
              rw (e, f, visit)
                (Searched-leave id visiting visited _ (
                  try_fold-Searched _ fuel (id ∷ visiting) (children edges id) (id ∷ visited)
                    (λ child s k done left.
                      visit-Searched fuel child (id ∷ visiting) s (path ++ id ∷ []) c (c id child k)
                        (LeadTo-child visiting id child l k) done left)
                    (AreDone-enter id visiting visited d)
                    (omega (arith, m, missing_lt ids visited id i f))))
        ]
      ]

  visit_root-Searched :
      (id : BlockId) (visited : List BlockId) (fuel : ℕ)
      → IsClosed
      → has ids id ≡ true
      → AreDone [] visited
      → missing ids visited < fuel
      → Searched [] visited (Ends edges id) (visit_root fuel edges id visited)
  unfolding visit_root
  visit_root-Searched id visited fuel c i d m = elim (Bool-cases (has visited id)) [
    | inl e ↦ rw (e, visit_root) ((λ b k. k), d, ended id [] visited d e refl)
    | inr e ↦ rw (e, visit_root) (visit-Searched fuel id [] visited [] c i (λ other k. cc) d m)
  ]

pub missing-length : (ids : List BlockId) → missing ids [] ≡ length ids
missing-length [] = refl
missing-length (id ∷ ids) = omega (arith, missing-length ids)

-- A walk ends at a block.
Reaches-has :
    (ids : List BlockId) (edges : Edges) (a b : BlockId)
    → IsClosed ids edges
    → Reaches edges a b
    → has ids b ≡ true
Reaches-has ids edges a b c (edge e) = c a b e
Reaches-has ids edges a b c (onward {b = mid} r e) = c mid b e

-- No block reaches itself, or the search names a cycle and there is a block that does.
abbrev pub Decides : List BlockId → Edges → Result SearchError (List BlockId) → Type 0
Decides ids edges r =
    ((visited : List BlockId) × (r ≡ ok visited) × ((id : BlockId) → ¬ Reaches edges id id))
    ⊎ ((path : List BlockId) × (r ≡ err (cycle path)) × (id : BlockId) × Reaches edges id id)

decided :
    (ids : List BlockId) (edges : Edges) (r : Result SearchError (List BlockId))
    → IsClosed ids edges
    → Searched ids edges [] [] (AllEnd ids edges ids) r
    → Decides ids edges r
decided ids edges (ok visited) c (w, d, all) = inl (
  visited,
  refl,
  λ id loop. Ends-irreflexive edges id (all id (Reaches-has ids edges id id c loop)) loop,
)
decided ids edges (err (cycle path)) c (id, loop) = inr (path, refl, id, loop)
decided ids edges (err out_of_fuel) c h = absurd h

-- Where every consumer of a signal is a block, the search ends within its fuel, and decides: it
-- accepts, and no walk along the signals leads from a block back to it; or it refuses with a cycle,
-- and there is such a walk.
pub detect_signal_cycle-Decides :
    (ids : List BlockId) (edges : Edges)
    → IsClosed ids edges
    → Decides ids edges (detect_signal_cycle ids edges)
unfolding detect_signal_cycle
detect_signal_cycle-Decides ids edges c = decided ids edges (detect_signal_cycle ids edges) c (
    try_fold-Searched ids edges (visit_root (suc (length ids)) edges) (suc (length ids)) [] ids []
      (λ child s k done left.
        visit_root-Searched ids edges child s (suc (length ids)) c k done left)
      (λ id k. cc) (omega (arith, missing-length ids)))
