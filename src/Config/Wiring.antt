-- ===== src/Config/Wiring.antt =====
-- Every output binding is in the map of the producers, once all bindings have passed their checks.
use logik_smith.Prelude.{
  ◌≡◌, false, none, some, List, [], ◌∷◌, find, Bool-cases, Option-cases, inl, inr, if◌then◌else◌,
  not, subst, sym, ap, ◌∙◌,
}
use logik_smith.Prelude.MinBy.{In, In-head_or_tail}
use logik_smith.Prelude.Order.{list_ord, nat_ord, same, same_refl, same_iff}
use logik_smith.Prelude.Result.{
  Result, ok, >>=-eq-ok, reject, ok_or, ok_or-some, ok-injective, err-ne-ok, some-injective,
}
use logik_smith.BTreeMap.{get, insert}
use logik_smith.BTreeMap.Laws.{get-insert}
use logik_smith.Identifiers.{SignalName}
use logik_smith.Values.{Endpoint, is_input, dpt_eq}
use logik_smith.Execution.{SignalEndpointId}
use logik_smith.Runtime.{SignalConfig}
use logik_smith.Config.{
  RuntimeConfigError, Binding, Producers, endpoint_of, identity_of, add_producer, check_binding,
  missing_endpoint, collect_producers,
}

-- A binding of an output endpoint
abbrev pub IsProducer : Binding → Type 0
IsProducer binding =
    (endpoint : Endpoint) × (endpoint_of binding ≡ some endpoint)
    × (is_input endpoint.direction ≡ false)

-- What one binding adds to the producers, and what it keeps of them
abbrev KeepsAll : Producers → Producers → Type 0
KeepsAll before after =
    (signal : SignalName) (producer : SignalEndpointId)
    → get signal before ≡ some producer
    → get signal after ≡ some producer

get-insert_self :
    (signal : SignalName) (identity : SignalEndpointId) (producers : Producers)
    → get signal (insert signal identity producers) ≡ some identity
get-insert_self signal identity producers =
    get-insert signal signal identity producers
    ∙ ap (λ b. if b then some identity else get signal producers) (same_refl signal)

insert-KeepsAll :
    (signal : SignalName) (identity : SignalEndpointId) (producers : Producers)
    → get signal producers ≡ none
    → KeepsAll producers (insert signal identity producers)
insert-KeepsAll signal identity producers e other producer k =
    elim (Bool-cases (same signal other)) [
      | inl q ↦
          let same_signal : signal ≡ other = (same_iff signal other).0 q in
          let gone = subst (λ s. get s producers ≡ none) same_signal e in
          absurd (none-ne-some (sym gone ∙ k))
      | inr q ↦
          get-insert signal other identity producers
          ∙ ap (λ b. if b then some identity else get other producers) q
          ∙ k
    ]
  where
    none-ne-some : none ≡ some producer → ⊥
    none-ne-some e = cc

-- A producer that was added is new.
add_producer_lem :
    (signal : SignalName) (identity : SignalEndpointId) (before : Producers) {after : Producers}
    → add_producer signal identity before ≡ ok after
    → KeepsAll before after × (get signal after ≡ some identity)
unfolding add_producer
add_producer_lem signal identity before {after} h = elim (Option-cases (get signal before)) [
  | inr (previous, e) ↦ absurd (err-ne-ok (rw (e, add_producer) at h))
  | inl e ↦
      let same_map : insert signal identity before ≡ after =
        ok-injective (insert signal identity before) (rw (e, add_producer) at h) in
      subst (λ m. KeepsAll before m × (get signal m ≡ some identity)) same_map
        (insert-KeepsAll signal identity before e, get-insert_self signal identity before)
]

abbrev AddsTo : Binding → Endpoint → Producers → Result RuntimeConfigError Producers
AddsTo binding endpoint before =
    if is_input endpoint.direction
    then ok before
    else add_producer binding.1.signal (identity_of binding) before

-- What is left of the checks of a binding that passed them
check_binding_end :
    (signals : List SignalConfig) (binding : Binding) (before : Producers) {after : Producers}
    → check_binding signals binding before ≡ ok after
    → (endpoint : Endpoint) × (endpoint_of binding ≡ some endpoint)
      × (AddsTo binding endpoint before ≡ ok after)
unfolding check_binding
check_binding_end signals binding before {after} h =
    let (signal, f, k) =
      >>=-eq-ok (ok_or (find (λ signal. same signal.name binding.1.signal) signals) _) _ h in
    let (endpoint, g, l) = >>=-eq-ok (ok_or (endpoint_of binding) missing_endpoint) _ k in
    let (u, r, end) = >>=-eq-ok (reject (not (dpt_eq endpoint.dpt signal.dpt)) _) _ l in
    (endpoint, ok_or-some (endpoint_of binding) missing_endpoint g, end)

AddsTo-KeepsAll :
    (binding : Binding) (endpoint : Endpoint) (before : Producers) {after : Producers}
    → AddsTo binding endpoint before ≡ ok after
    → KeepsAll before after
AddsTo-KeepsAll binding endpoint before {after} h =
    elim (Bool-cases (is_input endpoint.direction)) [
      | inl e ↦
          let same_map : before ≡ after = ok-injective before (rw e at h) in
          subst (KeepsAll before) same_map (λ signal producer k. k)
      | inr e ↦ (add_producer_lem binding.1.signal (identity_of binding) before (rw e at h)).0
    ]

check_binding-KeepsAll :
    (signals : List SignalConfig) (binding : Binding) (before : Producers) {after : Producers}
    → check_binding signals binding before ≡ ok after
    → KeepsAll before after
check_binding-KeepsAll signals binding before h =
    let (endpoint, e, end) = check_binding_end signals binding before h in
    AddsTo-KeepsAll binding endpoint before end

check_binding_adds :
    (signals : List SignalConfig) (binding : Binding) (before : Producers) {after : Producers}
    → IsProducer binding
    → check_binding signals binding before ≡ ok after
    → get binding.1.signal after ≡ some (identity_of binding)
check_binding_adds signals binding before {after} (endpoint, e, d) h =
    let (found, f, end) = check_binding_end signals binding before h in
    let same_endpoint : found ≡ endpoint = some-injective (sym f ∙ e) in
    let output = ap (λ x. is_input x.direction) same_endpoint ∙ d in
    (add_producer_lem binding.1.signal (identity_of binding) before {after = after} (
      ap (λ b. if b then ok before else add_producer binding.1.signal (identity_of binding) before)
        (sym output)
      ∙ end)).1

collect_producers-KeepsAll :
    (signals : List SignalConfig) (bindings : List Binding) (before : Producers) {after : Producers}
    → collect_producers signals bindings before ≡ ok after
    → KeepsAll before after
unfolding collect_producers
collect_producers-KeepsAll signals [] before {after} h =
    subst (KeepsAll before) (ok-injective before h) (λ signal producer k. k)
collect_producers-KeepsAll signals (binding ∷ rest) before {after} h =
    let (mid, e, k) = >>=-eq-ok (check_binding signals binding before) _ h in
    λ signal producer g.
      collect_producers-KeepsAll signals rest mid {after = after} k signal producer
        (check_binding-KeepsAll signals binding before {after = mid} e signal producer g)

-- Every output binding is in the map of the producers.
pub collect_producers_adds :
    (signals : List SignalConfig) (bindings : List Binding) (before : Producers) {after : Producers}
    (binding : Binding)
    → collect_producers signals bindings before ≡ ok after
    → In binding bindings
    → IsProducer binding
    → get binding.1.signal after ≡ some (identity_of binding)
unfolding collect_producers
collect_producers_adds signals [] before binding h (i, e) p = cc
collect_producers_adds signals (first ∷ rest) before {after} binding h i p =
    let (mid, e, k) = >>=-eq-ok (check_binding signals first before) _ h in
    elim (In-head_or_tail binding first rest i) [
      | inl q ↦
          let own = subst IsProducer (sym q) p in
          subst (λ b. get b.1.signal after ≡ some (identity_of b)) q
            (collect_producers-KeepsAll signals rest mid {after = after} k first.1.signal
              (identity_of first) (check_binding_adds signals first before {after = mid} own e))
      | inr tail ↦ collect_producers_adds signals rest mid {after = after} binding k tail p
    ]
