-- ===== src/Runtime/Bounds.antt =====
-- A cascade stays within its limit of executions, and its fuel suffices.
use logik_smith.Prelude.{
  ℕ, ◌+◌, ◌≤◌, ◌<◌, ◌≡◌, ◌≢◌, refl, Option, none, List, [], ◌∷◌, ◌||◌, not, leb, length, any,
  get_elem?, arith, Bool-cases, Option-cases, inl, inr, length-append, ◌∙◌, ap,
}
use logik_smith.Prelude.Order.{list_ord, nat_ord, same}
use logik_smith.Prelude.Result.{Result, ok, err, and_then, Result-cases}
use logik_smith.Identifiers.{BlockId}
use logik_smith.Values.{TypedValue, MonotonicMs}
use logik_smith.Execution.{Execution, ExecutionId, SignalEndpointId, default_site}
use logik_smith.Lua.{Platform}
use logik_smith.Engine.Updates.{process_input, observe_input}
use logik_smith.Block.{LogicBlock, is_active, admit_live_execution}
use logik_smith.Runtime.{
  Runtime, ClockSample, BudgetClock, RuntimeEventError, out_of_fuel, set_block, assign_execution_id,
}
use logik_smith.Runtime.Signals.{Cascade, find_block, observe_consumer, observe_consumers}
use logik_smith.Runtime.Propagate.{
  Outcome, push_child, run_child, observe_child, deliver_child, deliver_children, child_time,
  child_probe,
}

-- A cascade with the given limit on its executions, and no more of them.
pub record IsWithin (maximum : ℕ) (c : Cascade) : Type 0 where
  pub limit : c.runtime.limits.max_cascade_executions ≡ maximum
  pub bound : length c.executions ≤ maximum

-- A step that ended within the limit, with no execution lost, and not for want of fuel.
pub record Extends (maximum floor : ℕ) (r : Outcome) : Type 0 where
  pub within : IsWithin maximum r.1
  pub grows : floor ≤ length r.1.executions
  pub fuelled : r.0 ≢ err out_of_fuel

module _ (maximum : ℕ) where
  pub stay :
      (c : Cascade) (r : Result RuntimeEventError (Unit {0}))
      → IsWithin maximum c
      → r ≢ err out_of_fuel
      → Extends maximum (length c.executions) (r, c)
  stay c r w n = record { within = w; grows = omega arith; fuelled = n }

  pub lower :
      (floor base : ℕ) (r : Outcome)
      → floor ≤ base
      → Extends maximum base r
      → Extends maximum floor r
  lower floor base r h e = record {
    within = e.within;
    grows = omega (arith, h, e.grows);
    fuelled = e.fuelled;
  }

  pub and_then-Extends :
      (floor : ℕ) (m : Outcome) (f : Cascade → Outcome)
      → Extends maximum floor m
      → ((after : Cascade)
          → IsWithin maximum after
          → floor ≤ length after.executions
          → Extends maximum floor (f after))
      → Extends maximum floor (and_then m f)
  and_then-Extends floor (ok u, c) f e h = h c e.within e.grows
  and_then-Extends floor (err x, c) f e h = record {
    within = e.within;
    grows = e.grows;
    fuelled = λ p. e.fuelled (ground arith);
  }

module _ (platform : Platform) where
  -- A passive delivery keeps the limits, and does not run out of fuel.
  abbrev Passive : Runtime → Result RuntimeEventError (Unit {0}) × Runtime → Type 0
  Passive runtime r = (r.1.limits ≡ runtime.limits) × (r.0 ≢ err out_of_fuel)

  observe_consumer-Passive :
      (runtime : Runtime) (index : ℕ) (block : LogicBlock) (consumer : SignalEndpointId)
      (value : TypedValue) (now : MonotonicMs)
      → Passive runtime (observe_consumer platform runtime index block consumer value now)
  unfolding observe_consumer set_block
  observe_consumer-Passive runtime index block consumer value now =
      elim (Result-cases
        (observe_input platform block.engine consumer.endpoint value now
          (record { site = default_site; utc_unix_ms = none })).0) [
            | inl (u, e) ↦ rw (e, observe_consumer) (refl, λ p. cc)
            | inr (x, e) ↦ rw (e, observe_consumer) (refl, λ p. cc)
          ]

  and_then-Passive :
      (runtime : Runtime) (m : Result RuntimeEventError (Unit {0}) × Runtime)
      (f : Runtime → Result RuntimeEventError (Unit {0}) × Runtime)
      → Passive runtime m
      → ((after : Runtime) → Passive after (f after))
      → Passive runtime (and_then m f)
  and_then-Passive runtime (ok u, s) f p h = let (l, n) = h s in (l ∙ p.0, n)
  and_then-Passive runtime (err x, s) f p h = (p.0, λ e. p.1 (ground arith))

  pub observe_consumers-Passive :
      (now : MonotonicMs) (value : TypedValue) (consumers : List SignalEndpointId)
      (runtime : Runtime)
      → Passive runtime (observe_consumers platform now value consumers runtime)
  unfolding observe_consumers
  observe_consumers-Passive now value [] runtime = (refl, λ p. cc)
  observe_consumers-Passive now value (consumer ∷ rest) runtime =
      elim (Option-cases (find_block runtime consumer.block_id)) [
        | inl e ↦ rw (e, observe_consumers) (observe_consumers-Passive now value rest runtime)
        | inr (index, e) ↦ elim (Option-cases (get_elem? runtime.blocks index)) [
          | inl g ↦ rw (e, g, observe_consumers) (refl, λ p. cc)
          | inr (block, g) ↦
              rw (e, g, observe_consumers)
                (and_then-Passive runtime
                  (observe_consumer platform runtime index block consumer value now) _
                  (observe_consumer-Passive runtime index block consumer value now)
                  (λ after. observe_consumers-Passive now value rest after))
        ]
      ]

length-push_child :
    (c : Cascade) (index : ℕ) (block : LogicBlock) (id : BlockId) (x : Execution)
    (cause : Option ExecutionId) (now : MonotonicMs)
    → length (push_child c index block id x cause now).executions ≡ length c.executions + 1
unfolding push_child assign_execution_id
length-push_child c index block id x cause now = length-append c.executions _

-- What the fuel that is left lets the recursive call assume.
abbrev pub Recurses : ℕ → ℕ → (ℕ → Cascade → Outcome) → Type 0
Recurses maximum fuel recurse =
    (index : ℕ) (c : Cascade)
    → IsWithin maximum c
    → maximum < length c.executions + fuel
    → Extends maximum (length c.executions) (recurse index c)

module _ (platform : Platform) (sample : ClockSample) (clock : Option BudgetClock)
    (maximum fuel : ℕ) (recurse : ℕ → Cascade → Outcome) where
  -- The recursive call on a cascade with one execution more.
  descend :
      (c pushed : Cascade) (index : ℕ)
      → Recurses maximum fuel recurse
      → IsWithin maximum c
      → length c.executions < maximum
      → maximum ≤ length c.executions + fuel
      → pushed.runtime.limits ≡ c.runtime.limits
      → length pushed.executions ≡ length c.executions + 1
      → Extends maximum (length c.executions) (recurse index pushed)
  descend c pushed index h w l f same_limits e =
      lower maximum (length c.executions) (length pushed.executions) _ (omega (arith, e)) (
        h index pushed
          (record {
            limit = ap (λ limits. limits.max_cascade_executions) same_limits ∙ w.limit;
            bound = omega (arith, e, l);
          })
          (omega (arith, e, f)))

  module _ (cause : Option ExecutionId) (value : TypedValue) where
    run_child-Extends :
        (c : Cascade) (index : ℕ) (block : LogicBlock) (consumer : SignalEndpointId)
        → Recurses maximum fuel recurse
        → IsWithin maximum c
        → length c.executions < maximum
        → maximum ≤ length c.executions + fuel
        → Extends maximum
            (length c.executions)
            (run_child platform sample clock recurse cause value c index block consumer)
    unfolding run_child push_child set_block assign_execution_id
    run_child-Extends c index block consumer h w l f =
        let run =
          process_input platform block.engine
            (record { endpoint = consumer.endpoint; value = value }) sample.monotonic_ms
            (child_time c.runtime sample) (child_probe sample clock (length c.executions)) in
        let ran = record block { engine = run.1 } in
        elim (Result-cases run.0) [
          | inr (x, e) ↦
              rw (e, run_child)
                (record {
                  within = record { limit = w.limit; bound = w.bound };
                  grows = omega arith;
                  fuelled = λ p. cc;
                })
          | inl (x, e) ↦
              rw (e, run_child)
                (descend c (push_child c index ran consumer.block_id x cause sample.monotonic_ms)
                  (length c.executions) h w l f refl
                  (length-push_child c index ran consumer.block_id x cause sample.monotonic_ms))
        ]

    observe_child-Extends :
        (c : Cascade) (index : ℕ) (block : LogicBlock) (consumer : SignalEndpointId)
        → IsWithin maximum c
        → Extends maximum
            (length c.executions)
            (observe_child platform sample clock recurse cause value c index block consumer)
    unfolding observe_child
    observe_child-Extends c index block consumer w =
        let (l, n) =
          observe_consumer-Passive platform c.runtime index block consumer value
            sample.monotonic_ms in
        record {
          within = record {
            limit = ap (λ limits. limits.max_cascade_executions) l ∙ w.limit;
            bound = w.bound;
          };
          grows = omega arith;
          fuelled = n;
        }

    deliver_child-Extends :
        (c : Cascade) (index : ℕ) (block : LogicBlock) (consumer : SignalEndpointId)
        → Recurses maximum fuel recurse
        → IsWithin maximum c
        → maximum ≤ length c.executions + fuel
        → Extends maximum
            (length c.executions)
            (deliver_child platform sample clock recurse cause value c index block consumer)
    unfolding deliver_child
    deliver_child-Extends c index block consumer h w f =
        let maximum_rate = c.runtime.limits.max_live_executions_per_block_per_second in
        let (admitted, block') = admit_live_execution block sample.monotonic_ms maximum_rate in
        elim (Bool-cases
          (not (any (λ endpoint. same endpoint.name consumer.endpoint) block.config.endpoints))) [
            | inl a ↦ rw (a, deliver_child) (stay maximum c _ w (λ p. cc))
            | inr a ↦ elim (Bool-cases (not block.config.enabled || not (is_active block.health))) [
              | inl b ↦ rw (a, b, deliver_child) (observe_child-Extends c index block consumer w)
              | inr b ↦
                  elim (Bool-cases
                    (leb c.runtime.limits.max_cascade_executions (length c.executions))) [
                      | inl g ↦ rw (a, b, g, deliver_child) (stay maximum c _ w (λ p. cc))
                      | inr g ↦ elim (Bool-cases admitted) [
                        | inl d ↦
                            rw (a, b, g, d, deliver_child)
                              (run_child-Extends c index block' consumer h w
                                (ground (arith, w.limit)) f)
                        | inr d ↦
                            rw (a, b, g, d, deliver_child)
                              (observe_child-Extends c index block' consumer w)
                      ]
                    ]
            ]
          ]

    pub deliver_children-Extends :
        (consumers : List SignalEndpointId) (c : Cascade)
        → Recurses maximum fuel recurse
        → IsWithin maximum c
        → maximum ≤ length c.executions + fuel
        → Extends maximum
            (length c.executions)
            (deliver_children platform sample clock recurse cause value consumers c)
    unfolding deliver_children
    deliver_children-Extends [] c h w f = stay maximum c _ w (λ p. cc)
    deliver_children-Extends (consumer ∷ rest) c h w f =
        elim (Option-cases (find_block c.runtime consumer.block_id)) [
          | inl e ↦ rw (e, deliver_children) (deliver_children-Extends rest c h w f)
          | inr (index, e) ↦ elim (Option-cases (get_elem? c.runtime.blocks index)) [
            | inl g ↦ rw (e, g, deliver_children) (stay maximum c _ w (λ p. cc))
            | inr (block, g) ↦
                rw (e, g, deliver_children)
                  (and_then-Extends maximum (length c.executions)
                    (deliver_child platform sample clock recurse cause value c index block consumer)
                    _ (deliver_child-Extends c index block consumer h w f)
                    (λ after v l.
                      lower maximum (length c.executions) (length after.executions) _ l
                        (deliver_children-Extends rest after h v (omega (arith, f, l)))))
          ]
        ]
