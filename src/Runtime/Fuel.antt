-- ===== src/Runtime/Fuel.antt =====
-- The whole propagation: its executions stay within the limit, and fuel for the limit suffices.
use logik_smith.Prelude.{
  ℕ, zero, suc, ◌+◌, ◌≤◌, ◌<◌, ◌≡◌, ◌≢◌, Bool, true, false, Option, none, some, List, [], ◌∷◌,
  length, get_elem?, arith, Option-cases, inl, inr, length-set, ◌∙◌, ap,
}
use logik_smith.Prelude.Order.{list_ord, nat_ord}
use logik_smith.Prelude.Result.{err, Result-cases}
use logik_smith.BTreeMap.{get}
use logik_smith.Identifiers.{SignalName}
use logik_smith.Values.{OutputEffect, TypedValue}
use logik_smith.Execution.{ExecutionId, SignalEndpointId}
use logik_smith.Lua.{Platform}
use logik_smith.Runtime.{
  Runtime, SignalState, BlockExecution, ClockSample, BudgetClock, out_of_fuel, block_of,
  check_cascade_budget,
}
use logik_smith.Runtime.Signals.{Cascade, bound_signal, is_change}
use logik_smith.Runtime.Propagate.{
  Outcome, announce, published_by, publish_output, propagate_output, propagate_outputs, outputs_of,
  check_clock, propagate_from_execution,
}
use logik_smith.Runtime.Bounds.{
  IsWithin, Extends, Recurses, stay, lower, and_then-Extends, observe_consumers-Passive,
  deliver_children-Extends,
}

module _ (platform : Platform) (sample : ClockSample) (clock : Option BudgetClock)
    (maximum fuel : ℕ) (recurse : ℕ → Cascade → Outcome) where
  announce-Extends :
      (changed : Bool) (cause : Option ExecutionId) (value : TypedValue)
      (consumers : List SignalEndpointId) (c : Cascade)
      → Recurses maximum fuel recurse
      → IsWithin maximum c
      → maximum ≤ length c.executions + fuel
      → Extends maximum
          (length c.executions)
          (announce platform sample clock recurse changed cause value consumers c)
  unfolding announce
  announce-Extends true cause value consumers c h w f =
      deliver_children-Extends platform sample clock maximum fuel recurse cause value consumers c h
        w f
  announce-Extends false cause value consumers c h w f =
      let (l, n) =
        observe_consumers-Passive platform sample.monotonic_ms value consumers c.runtime in
      record {
        within = record {
          limit = ap (λ limits. limits.max_cascade_executions) l ∙ w.limit;
          bound = w.bound;
        };
        grows = omega arith;
        fuelled = n;
      }

  publish_output-Extends :
      (c : Cascade) (index : ℕ) (parent : BlockExecution) (name : SignalName) (signal_index : ℕ)
      (signal : SignalState) (output : OutputEffect)
      → Recurses maximum fuel recurse
      → IsWithin maximum c
      → maximum ≤ length c.executions + fuel
      → Extends maximum (length c.executions) (
          publish_output platform sample clock recurse c index parent name signal_index signal
            output)
  unfolding publish_output published_by
  publish_output-Extends c index parent name signal_index signal output h w f =
      let published =
        published_by c index parent name signal_index signal output sample.monotonic_ms in
      let same_length : length published.executions ≡ length c.executions =
        length-set c.executions index _ in
      lower maximum (length c.executions) (length published.executions) _
        (omega (arith, same_length))
        (announce-Extends (is_change signal output.value) parent.execution.id output.value
          signal.consumers published h
          (record { limit = w.limit; bound = omega (arith, same_length, w.bound) })
          (omega (arith, same_length, f)))

  propagate_output-Extends :
      (index : ℕ) (output : OutputEffect) (c : Cascade)
      → Recurses maximum fuel recurse
      → IsWithin maximum c
      → maximum ≤ length c.executions + fuel
      → Extends maximum
          (length c.executions)
          (propagate_output platform sample clock recurse index output c)
  unfolding propagate_output
  propagate_output-Extends index output c h w f =
      elim (Option-cases (get_elem? c.executions index)) [
        | inl a ↦ rw (a, propagate_output) (stay maximum c _ w (λ p. cc))
        | inr (parent, a) ↦ elim (Option-cases (block_of c.runtime parent.block_id)) [
          | inl b ↦ rw (a, b, propagate_output) (stay maximum c _ w (λ p. cc))
          | inr (block, b) ↦ elim (Option-cases (bound_signal block output.endpoint)) [
            | inl d ↦ rw (a, b, d, propagate_output) (stay maximum c _ w (λ p. cc))
            | inr (name, d) ↦ elim (Option-cases (get name c.runtime.signal_indexes)) [
              | inl e ↦ rw (a, b, d, e, propagate_output) (stay maximum c _ w (λ p. cc))
              | inr (i, e) ↦ elim (Option-cases (get_elem? c.runtime.signals i)) [
                | inl g ↦ rw (a, b, d, e, g, propagate_output) (stay maximum c _ w (λ p. cc))
                | inr (signal, g) ↦
                    rw (a, b, d, e, g, propagate_output)
                      (publish_output-Extends c index parent name i signal output h w f)
              ]
            ]
          ]
        ]
      ]

  propagate_outputs-Extends :
      (index : ℕ) (outputs : List OutputEffect) (c : Cascade)
      → Recurses maximum fuel recurse
      → IsWithin maximum c
      → maximum ≤ length c.executions + fuel
      → Extends maximum
          (length c.executions)
          (propagate_outputs platform sample clock recurse index outputs c)
  unfolding propagate_outputs
  propagate_outputs-Extends index [] c h w f = stay maximum c _ w (λ p. cc)
  propagate_outputs-Extends index (output ∷ rest) c h w f =
      and_then-Extends maximum (length c.executions)
        (propagate_output platform sample clock recurse index output c) _
        (propagate_output-Extends index output c h w f)
        (λ after v l.
          lower maximum (length c.executions) (length after.executions) _ l
            (propagate_outputs-Extends index rest after h v (omega (arith, f, l))))

check_clock-fuelled :
    (runtime : Runtime) (clock : Option BudgetClock) (index : ℕ)
    → check_clock runtime clock index ≢ err out_of_fuel
unfolding check_clock check_cascade_budget
check_clock-fuelled runtime none index p = cc
check_clock-fuelled runtime (some clock) index p = ground arith

-- From a cascade within the limit of executions, with fuel for the executions that the limit still
-- allows, the propagation ends within the limit, whatever it returns, and never for want of fuel.
pub propagate_from_execution-Extends :
    (platform : Platform) (sample : ClockSample) (clock : Option BudgetClock)
    (maximum fuel index : ℕ) (c : Cascade)
    → IsWithin maximum c
    → maximum < length c.executions + fuel
    → Extends maximum
        (length c.executions)
        (propagate_from_execution platform sample clock fuel index c)
unfolding propagate_from_execution
propagate_from_execution-Extends platform sample clock maximum zero index c w f =
    absurd (omega (arith, f, w.bound))
propagate_from_execution-Extends platform sample clock maximum (suc fuel) index c w f =
    elim (Result-cases (check_clock c.runtime clock index)) [
      | inr (x, e) ↦
          rw (e, propagate_from_execution)
            (stay maximum c _ w (λ p. check_clock-fuelled c.runtime clock index (e ∙ p)))
      | inl (u, e) ↦ elim (Option-cases (get_elem? c.executions index)) [
        | inl g ↦ rw (e, g, propagate_from_execution) (stay maximum c _ w (λ p. cc))
        | inr (execution, g) ↦
            rw (e, g, propagate_from_execution)
              (propagate_outputs-Extends platform sample clock maximum fuel
                (propagate_from_execution platform sample clock fuel) index (outputs_of execution) c
                (λ i d v l.
                  propagate_from_execution-Extends platform sample clock maximum fuel i d v l)
                w (omega (arith, f)))
      ]
    ]
