-- ===== src/Config/Accepted.antt =====
-- What the collected producers say of the blocks: one that feeds another has an edge to it in the graph,
-- and no two outputs have one signal.
use logik_smith.Prelude.{◌≡◌, true, some, List, [], subst, sym, ap, ◌∙◌}
use logik_smith.Prelude.MinBy.{In}
use logik_smith.Prelude.Order.{list_ord, nat_ord}
use logik_smith.Prelude.Result.{ok, some-injective}
use logik_smith.BTreeMap.{get}
use logik_smith.Identifiers.{BlockId}
use logik_smith.Block.{BlockConfig}
use logik_smith.Runtime.{SignalConfig}
use logik_smith.Config.{
  Binding, Producers, bindings_of, endpoint_of, identity_of, is_consumer, collect_producers,
  collect_edges,
}
use logik_smith.Config.Graph.{Edges}
use logik_smith.Config.Graph.Reach.{IsEdge, Reaches, edge, onward}
use logik_smith.Config.Wiring.{IsProducer, collect_producers_adds}
use logik_smith.Config.Consumers.{collect_edges_adds}

-- A signal that an output of the block `a` is bound to is one that an input of the block `b` is bound
-- to.
abbrev pub IsFed : List BlockConfig → BlockId → BlockId → Type 0
IsFed blocks a b =
    (output : Binding) × (input : Binding) × In output (bindings_of blocks)
    × In input (bindings_of blocks)
    × IsProducer output
    × (is_consumer (endpoint_of input) ≡ true)
    × (output.1.signal ≡ input.1.signal)
    × (output.0.id ≡ a)
    × (input.0.id ≡ b)

-- A chain of such blocks
pub data Leads (blocks : List BlockConfig) (a : BlockId) : BlockId → Type 0 where
  direct : {b : BlockId} → IsFed blocks a b → Leads blocks a b
  further : {b c : BlockId} → Leads blocks a b → IsFed blocks b c → Leads blocks a c

module _ (signals : List SignalConfig) (blocks : List BlockConfig) (producers : Producers)
    (collected : collect_producers signals (bindings_of blocks) [] ≡ ok producers) where
  abbrev edges_of : Edges
  edges_of = collect_edges producers (bindings_of blocks) []

  IsFed-IsEdge : (a b : BlockId) → IsFed blocks a b → IsEdge edges_of a b
  IsFed-IsEdge a b (output, input, i, j, p, c, s, e, f) =
      let found =
        collect_producers_adds signals (bindings_of blocks) [] {after = producers} output collected
          i p in
      let h =
        collect_edges_adds producers (bindings_of blocks) [] input (identity_of output) j
          (subst (λ signal. get signal producers ≡ some (identity_of output)) s found) c in
      subst (λ x. IsEdge edges_of x b) e (subst (IsEdge edges_of output.0.id) f h)

  -- Every chain of blocks is a walk in the graph.
  pub Leads-Reaches : (a b : BlockId) → Leads blocks a b → Reaches edges_of a b
  Leads-Reaches a b (direct f) = edge (IsFed-IsEdge a b f)
  Leads-Reaches a c (further {b} l f) = onward (Leads-Reaches a b l) (IsFed-IsEdge b c f)

  -- No two outputs have the same signal.
  pub one_producer :
      (p q : Binding)
      → In p (bindings_of blocks)
      → In q (bindings_of blocks)
      → IsProducer p
      → IsProducer q
      → p.1.signal ≡ q.1.signal
      → identity_of p ≡ identity_of q
  one_producer p q i j h k s =
      let first =
        collect_producers_adds signals (bindings_of blocks) [] {after = producers} p collected i
          h in
      let second =
        collect_producers_adds signals (bindings_of blocks) [] {after = producers} q collected j
          k in
      some-injective (sym first ∙ ap (λ signal. get signal producers) s ∙ second)
