-- ===== src/Config/Consumers.antt =====
-- Every input binding of a produced signal has its edge in the graph, and only blocks of the bindings
-- are consumers.
use logik_smith.Prelude.{
  ◌≡◌, refl, true, ◌||◌, some, List, [], ◌∷◌, ◌++◌, arith, Bool-cases, Option-cases, inl, inr,
  if◌then◌else◌, subst, sym, ap, ◌∙◌, unwrap_or, All, ◌⊎◌,
}
use logik_smith.Prelude.MinBy.{In, In-head_or_tail}
use logik_smith.Prelude.Order.{list_ord, nat_ord, same, same_refl, same_iff}
use logik_smith.BTreeMap.{get}
use logik_smith.BTreeMap.Laws.{get-insert}
use logik_smith.Identifiers.{BlockId}
use logik_smith.Execution.{SignalEndpointId}
use logik_smith.Config.{
  Binding, Producers, endpoint_of, is_consumer, push_edge, add_edge, collect_edges,
}
use logik_smith.Config.Graph.{Edges, children, has}
use logik_smith.Config.Graph.Reach.{IsEdge}

has-append : (xs ys : List BlockId) (id : BlockId) → has (xs ++ ys) id ≡ (has xs id || has ys id)
has-append [] ys id = refl
has-append (x ∷ xs) ys id = ground (arith, has-append xs ys id)

children-push_edge :
    (producer block a : BlockId) (edges : Edges)
    → children (push_edge producer block edges) a
      ≡ (if same producer a then children edges producer ++ block ∷ [] else children edges a)
unfolding children push_edge
children-push_edge producer block a edges = elim (Bool-cases (same producer a)) [
  | inl e ↦ rw e (
      ap (λ o. unwrap_or o [])
        (get-insert producer a _ edges
          ∙ ap
              (λ b.
                if b then some (unwrap_or (get producer edges) [] ++ block ∷ []) else get a edges)
              e))
  | inr e ↦ rw e (
      ap (λ o. unwrap_or o [])
        (get-insert producer a _ edges
          ∙ ap
              (λ b.
                if b then some (unwrap_or (get producer edges) [] ++ block ∷ []) else get a edges)
              e))
]

-- The new edges are the old ones and one more.
push_edge_keeps :
    (producer block a b : BlockId) (edges : Edges)
    → IsEdge edges a b
    → IsEdge (push_edge producer block edges) a b
push_edge_keeps producer block a b edges h = elim (Bool-cases (same producer a)) [
  | inl e ↦
      let same_id : producer ≡ a = (same_iff producer a).0 e in
      rw
        (
          children-push_edge producer block a edges,
          e,
          has-append (children edges producer) (block ∷ []) b,
        )
        (ground (arith, subst (λ x. IsEdge edges x b) (sym same_id) h))
  | inr e ↦ rw (children-push_edge producer block a edges, e) h
]

push_edge_adds :
    (producer block : BlockId) (edges : Edges)
    → IsEdge (push_edge producer block edges) producer block
push_edge_adds producer block edges =
    rw
      (
        children-push_edge producer block producer edges,
        same_refl producer,
        has-append (children edges producer) (block ∷ []) block,
      )
      (ground (arith, same_refl block))

push_edge_only :
    (producer block a b : BlockId) (edges : Edges)
    → IsEdge (push_edge producer block edges) a b
    → IsEdge edges a b ⊎ (block ≡ b)
push_edge_only producer block a b edges h = elim (Bool-cases (same producer a)) [
  | inr e ↦ inl (rw (children-push_edge producer block a edges, e) at h)
  | inl e ↦
      let same_id : producer ≡ a = (same_iff producer a).0 e in
      let k =
        rw
          (
            children-push_edge producer block a edges,
            e,
            has-append (children edges producer) (block ∷ []) b,
          )
          at h in
      elim (Bool-cases (same block b)) [
        | inl q ↦ inr ((same_iff block b).0 q)
        | inr q ↦ inl (subst (λ x. IsEdge edges x b) same_id (ground arith))
      ]
]

-- A binding of an input endpoint, of a signal with a producer
add_edge_adds :
    (producers : Producers) (binding : Binding) (edges : Edges) (producer : SignalEndpointId)
    → get binding.1.signal producers ≡ some producer
    → is_consumer (endpoint_of binding) ≡ true
    → IsEdge (add_edge producers binding edges) producer.block_id binding.0.id
unfolding add_edge
add_edge_adds producers binding edges producer g c =
    rw (g, c, add_edge) (push_edge_adds producer.block_id binding.0.id edges)

add_edge_keeps :
    (producers : Producers) (binding : Binding) (edges : Edges) (a b : BlockId)
    → IsEdge edges a b
    → IsEdge (add_edge producers binding edges) a b
unfolding add_edge
add_edge_keeps producers binding edges a b h =
    elim (Option-cases (get binding.1.signal producers)) [
      | inl e ↦ rw (e, add_edge) h
      | inr (producer, e) ↦ elim (Bool-cases (is_consumer (endpoint_of binding))) [
        | inl c ↦ rw (e, c, add_edge) (push_edge_keeps producer.block_id binding.0.id a b edges h)
        | inr c ↦ rw (e, c, add_edge) h
      ]
    ]

add_edge_only :
    (producers : Producers) (binding : Binding) (edges : Edges) (a b : BlockId)
    → IsEdge (add_edge producers binding edges) a b
    → IsEdge edges a b ⊎ (binding.0.id ≡ b)
unfolding add_edge
add_edge_only producers binding edges a b h = elim (Option-cases (get binding.1.signal producers)) [
  | inl e ↦ inl (rw (e, add_edge) at h)
  | inr (producer, e) ↦ elim (Bool-cases (is_consumer (endpoint_of binding))) [
    | inl c ↦ push_edge_only producer.block_id binding.0.id a b edges (rw (e, c, add_edge) at h)
    | inr c ↦ inl (rw (e, c, add_edge) at h)
  ]
]

collect_edges_keeps :
    (producers : Producers) (bindings : List Binding) (edges : Edges) (a b : BlockId)
    → IsEdge edges a b
    → IsEdge (collect_edges producers bindings edges) a b
unfolding collect_edges
collect_edges_keeps producers [] edges a b h = h
collect_edges_keeps producers (binding ∷ rest) edges a b h =
    collect_edges_keeps producers rest (add_edge producers binding edges) a b
      (add_edge_keeps producers binding edges a b h)

-- Every input binding of a produced signal has its edge.
pub collect_edges_adds :
    (producers : Producers) (bindings : List Binding) (edges : Edges) (binding : Binding)
    (producer : SignalEndpointId)
    → In binding bindings
    → get binding.1.signal producers ≡ some producer
    → is_consumer (endpoint_of binding) ≡ true
    → IsEdge (collect_edges producers bindings edges) producer.block_id binding.0.id
unfolding collect_edges
collect_edges_adds producers [] edges binding producer (i, e) g c = cc
collect_edges_adds producers (first ∷ rest) edges binding producer i g c =
    elim (In-head_or_tail binding first rest i) [
      | inl q ↦
          subst
            (λ b.
              IsEdge (collect_edges producers rest (add_edge producers first edges))
                producer.block_id b.0.id)
            q
            (collect_edges_keeps producers rest (add_edge producers first edges) producer.block_id
              first.0.id
              (add_edge_adds producers first edges producer
                (ap (λ b. get b.1.signal producers) q ∙ g)
                (ap (λ b. is_consumer (endpoint_of b)) q ∙ c)))
      | inr tail ↦
          collect_edges_adds producers rest (add_edge producers first edges) binding producer tail g
            c
    ]

-- Only the blocks of the bindings consume.
pub collect_edges_closed :
    (ids : List BlockId) (producers : Producers) (bindings : List Binding) (edges : Edges)
    → All (λ binding. has ids binding.0.id ≡ true) bindings
    → ((a b : BlockId) → IsEdge edges a b → has ids b ≡ true)
    → (a b : BlockId) → IsEdge (collect_edges producers bindings edges) a b
    → has ids b ≡ true
unfolding collect_edges
collect_edges_closed ids producers [] edges s h a b k = h a b k
collect_edges_closed ids producers (binding ∷ rest) edges s h a b k =
    collect_edges_closed ids producers rest (add_edge producers binding edges) s.1
      (λ x y e. elim (add_edge_only producers binding edges x y e) [
        | inl old ↦ h x y old
        | inr new ↦ subst (λ id. has ids id ≡ true) new s.0
      ])
      a b k
