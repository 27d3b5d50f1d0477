-- ===== src/Runtime/DueTimers/Earliest.antt =====
-- The selected timer is a due timer of a block that may run, and the first of all of them.
use logik_smith.Prelude.{
  ℕ, zero, suc, ◌+◌, ◌≤◌, ◌<◌, ◌≡◌, refl, true, false, Option, none, some, List, [], ◌∷◌, map, All,
  All-append, ◌&&◌, Ordering, leb, arith, get_elem?, Bool-cases, Option-cases, inl, inr, ◌⊎◌, subst,
}
use logik_smith.Prelude.MinBy.{
  In, In-suc, In-keep, All-In, min_by, keep-In, append-In_left, append-In_right, map-In, NoLater,
  min_by_sound,
}
use logik_smith.Prelude.Order.{
  list_ord, nat_ord, pair_ord, pair_cmp, IsLe, IsLe-refl, IsLe-trans, IsLe-of_gt,
}
use logik_smith.BTreeMap.{values}
use logik_smith.Identifiers.{BlockId}
use logik_smith.Values.{MonotonicMs}
use logik_smith.Program.{TimerName}
use logik_smith.Timer.{PendingTimer}
use logik_smith.Engine.DueTimers.{due_timers}
use logik_smith.Block.{LogicBlock, is_active}
use logik_smith.Runtime.{Runtime}
use logik_smith.Runtime.DueTimers.{Candidate, candidate_cmp, candidates, select_due_timer}

abbrev key : Candidate → (MonotonicMs × BlockId) × TimerName
key c = ((c.timer.due_at, c.block_id), c.timer.name)

abbrev Passes : Candidate → Candidate → Type 0
Passes = NoLater candidate_cmp

Passes-refl : (c : Candidate) → Passes c c
unfolding candidate_cmp pair_ord pair_cmp
Passes-refl c = IsLe-refl (key c)

Passes-trans : (b c d : Candidate) → Passes b c → Passes c d → Passes b d
unfolding candidate_cmp pair_ord pair_cmp
Passes-trans b c d = IsLe-trans (key b) (key c) (key d)

Passes-of_gt : (c d : Candidate) → candidate_cmp c d ≡ Ordering.gt → Passes d c
unfolding candidate_cmp pair_ord pair_cmp
Passes-of_gt c d = IsLe-of_gt (key c) (key d)

-- `c` is no later than a timer of a block: by deadline, then block ID, then timer name.
abbrev pub IsFirst : Candidate → BlockId → PendingTimer → Type 0
IsFirst c id timer =
    (c.timer.due_at < timer.due_at)
    ⊎ ((c.timer.due_at ≡ timer.due_at)
        × ((list_ord.cmp c.block_id id ≡ Ordering.lt)
            ⊎ ((c.block_id ≡ id) × IsLe c.timer.name timer.name)))

Passes-IsFirst : (c d : Candidate) → Passes c d → IsFirst c d.block_id d.timer
unfolding candidate_cmp
Passes-IsFirst c d h =
    let same_id : list_ord.cmp c.block_id d.block_id ≡ Ordering.eq → c.block_id ≡ d.block_id =
      list_ord.cmp_eq c.block_id d.block_id in
    ground (arith, same_id)

abbrev at : ℕ → LogicBlock → PendingTimer → Candidate
at n block timer = record { index = n; block_id = block.config.id; timer = timer }

head-In :
    (now : MonotonicMs) (k : ℕ) (block : LogicBlock) (blocks : List LogicBlock)
    (timer : PendingTimer)
    → block.config.enabled ≡ true
    → is_active block.health ≡ true
    → In timer (values block.engine.pending_timers)
    → timer.due_at ≤ now
    → In (at k block timer) (candidates now k (block ∷ blocks))
unfolding candidates due_timers
head-In now k block blocks timer a b w d =
    let due =
      keep-In (λ t. leb t.due_at now) (values block.engine.pending_timers) timer w (ground arith) in
    rw (a, b, candidates)
      (append-In_left _ (candidates now (suc k) blocks) (at k block timer)
        (map-In (at k block) _ timer due))

tail-In :
    (now : MonotonicMs) (k : ℕ) (block : LogicBlock) (blocks : List LogicBlock) (c : Candidate)
    → In c (candidates now (suc k) blocks)
    → In c (candidates now k (block ∷ blocks))
unfolding candidates
tail-In now k block blocks c h =
    elim (Bool-cases (block.config.enabled && is_active block.health)) [
      | inl e ↦ rw (e, candidates) (append-In_right _ (candidates now (suc k) blocks) c h)
      | inr e ↦ rw (e, candidates) h
    ]

candidates-In :
    (now : MonotonicMs) (k : ℕ) (blocks : List LogicBlock) (i : ℕ) (block : LogicBlock)
    (timer : PendingTimer)
    → get_elem? blocks i ≡ some block
    → block.config.enabled ≡ true
    → is_active block.health ≡ true
    → In timer (values block.engine.pending_timers)
    → timer.due_at ≤ now
    → (n : ℕ) × In (at n block timer) (candidates now k blocks)
candidates-In now k [] i block timer g a b w d = cc
candidates-In now k (x ∷ xs) zero block timer g a b w d =
    let same_block : block ≡ x = ground arith in
    (
      k,
      subst (λ x. In (at k block timer) (candidates now k (x ∷ xs))) same_block
          (head-In now k block xs timer a b w d),
    )
candidates-In now k (x ∷ xs) (suc i) block timer g a b w d =
    let (n, h) = candidates-In now (suc k) xs i block timer g a b w d in
    (n, tail-In now k x xs (at n block timer) h)

module _ {ℓ κ} {A : Type ℓ} where
  -- What holds of every element, by its place in the list
  every : (P : A → Type κ) (ts : List A) → ((t : A) → In t ts → P t) → All P ts
  every P [] h = tt
  every P (t ∷ ts) h = (h t (0, refl), every P ts (λ u i. h u (In-suc u t ts i)))

  implied : (P Q : A → Type κ) (ts : List A) → ((t : A) → P t → Q t) → All P ts → All Q ts
  implied P Q [] h a = tt
  implied P Q (t ∷ ts) h a = (h t a.0, implied P Q ts h a.1)

every_map {ℓ κ μ} :
    {A : Type ℓ} {B : Type κ} (P : B → Type μ) (f : A → B) (ts : List A)
    → All (λ t. P (f t)) ts
    → All P (map f ts)
every_map P f [] h = tt
every_map P f (t ∷ ts) h = (h.0, every_map P f ts h.1)

-- A candidate is a due and pending timer of an enabled and active block.
abbrev Origin : MonotonicMs → ℕ → List LogicBlock → Candidate → Type 0
Origin now k blocks c =
    (i : ℕ) × (c.index ≡ k + i)
    × (block : LogicBlock) × (get_elem? blocks i ≡ some block)
    × (block.config.id ≡ c.block_id)
    × (block.config.enabled ≡ true)
    × (is_active block.health ≡ true)
    × In c.timer (values block.engine.pending_timers)
    × (c.timer.due_at ≤ now)

Origin-later :
    (now : MonotonicMs) (k : ℕ) (block : LogicBlock) (blocks : List LogicBlock) (c : Candidate)
    → Origin now (suc k) blocks c
    → Origin now k (block ∷ blocks) c
Origin-later now k block blocks c (i, e, found, g, n, a, b, w, d) =
    (suc i, omega (arith, e), found, g, n, a, b, w, d)

Origin-first :
    (now : MonotonicMs) (k : ℕ) (block : LogicBlock) (blocks : List LogicBlock)
    (timer : PendingTimer)
    → (block.config.enabled && is_active block.health) ≡ true
    → In timer (due_timers block.engine.pending_timers now)
    → Origin now k (block ∷ blocks) (at k block timer)
unfolding due_timers
Origin-first now k block blocks timer e i =
    let (listed, due) =
      In-keep (λ t. leb t.due_at now) (values block.engine.pending_timers) timer i in
    (0, omega arith, block, refl, refl, ground arith, ground arith, listed, ground arith)

candidates-Origin :
    (now : MonotonicMs) (k : ℕ) (blocks : List LogicBlock)
    → All (Origin now k blocks) (candidates now k blocks)
unfolding candidates
candidates-Origin now k [] = tt
candidates-Origin now k (block ∷ blocks) =
    let later =
      implied (Origin now (suc k) blocks) (Origin now k (block ∷ blocks))
        (candidates now (suc k) blocks) (Origin-later now k block blocks)
        (candidates-Origin now (suc k) blocks) in
    elim (Bool-cases (block.config.enabled && is_active block.health)) [
      | inr e ↦ rw (e, candidates) later
      | inl e ↦
          rw (e, candidates)
            (All-append (Origin now k (block ∷ blocks)) _ (candidates now (suc k) blocks)
              (every_map (Origin now k (block ∷ blocks)) (at k block)
                (due_timers block.engine.pending_timers now)
                (every _ (due_timers block.engine.pending_timers now)
                  (λ t i. Origin-first now k block blocks t e i)))
              later)
    ]

-- Of every timer: its block may not run, or it is not due, or `P` holds of it.
abbrev pub OfDue : (LogicBlock → PendingTimer → Type 0) → MonotonicMs → List LogicBlock → Type 0
OfDue P now blocks =
    All
      (λ (block : LogicBlock).
        ((block.config.enabled && is_active block.health) ≡ false)
        ⊎ All (λ (timer : PendingTimer). (now < timer.due_at) ⊎ P block timer)
            (values block.engine.pending_timers))
      blocks

OfDue-every :
    (P : LogicBlock → PendingTimer → Type 0) (now : MonotonicMs) (blocks : List LogicBlock)
    → ((i : ℕ) (block : LogicBlock) (timer : PendingTimer)
        → get_elem? blocks i ≡ some block
        → block.config.enabled ≡ true
        → is_active block.health ≡ true
        → In timer (values block.engine.pending_timers)
        → timer.due_at ≤ now
        → P block timer)
    → OfDue P now blocks
OfDue-every P now blocks h = every _ blocks λ block (i, g).
    elim (Bool-cases (block.config.enabled && is_active block.health)) [
      | inr e ↦ inl e
      | inl e ↦ inr (
          every _ (values block.engine.pending_timers) λ timer w.
            elim (Bool-cases (leb timer.due_at now)) [
              | inr f ↦ inl (ground arith)
              | inl f ↦ inr (h i block timer g (ground arith) (ground arith) w (ground arith))
            ])
    ]

-- What the selection found: nothing, when no block that may run has a due timer; else a due and
-- pending timer of the enabled and active block at its index, and no other due timer is before it.
abbrev pub Selects : Runtime → MonotonicMs → Option Candidate → Type 0
Selects runtime now none = OfDue (λ block timer. ⊥) now runtime.blocks
Selects runtime now (some c) =
    ((block : LogicBlock) × (get_elem? runtime.blocks c.index ≡ some block)
      × (block.config.id ≡ c.block_id)
      × (block.config.enabled ≡ true)
      × (is_active block.health ≡ true)
      × In c.timer (values block.engine.pending_timers)
      × (c.timer.due_at ≤ now))
    × OfDue (λ block timer. IsFirst c block.config.id timer) now runtime.blocks

min_by-none : (cs : List Candidate) (c : Candidate) → min_by candidate_cmp cs ≡ none → In c cs → ⊥
unfolding min_by
min_by-none [] c e (i, h) = cc
min_by-none (d ∷ ds) c e h = cc

selected :
    (runtime : Runtime) (now : MonotonicMs) (c : Candidate)
    → min_by candidate_cmp (candidates now 0 runtime.blocks) ≡ some c
    → Selects runtime now (some c)
selected runtime now c e =
    let (here, least) =
      min_by_sound candidate_cmp Passes-refl Passes-trans Passes-of_gt
        (candidates now 0 runtime.blocks) {m = c} e in
    let (i, index, block, g, n, a, b, w, d) =
      All-In (Origin now 0 runtime.blocks) (candidates now 0 runtime.blocks) c
        (candidates-Origin now 0 runtime.blocks) here in
    let same_index : i ≡ c.index = omega (arith, index) in
    (
      (block, subst (λ n. get_elem? runtime.blocks n ≡ some block) same_index g, n, a, b, w, d),
      OfDue-every (λ other timer. IsFirst c other.config.id timer) now runtime.blocks
          λ n other timer h a b w d.
            let (m, listed) = candidates-In now 0 runtime.blocks n other timer h a b w d in
            Passes-IsFirst c (at m other timer)
              (All-In (Passes c) (candidates now 0 runtime.blocks) (at m other timer) least listed),
    )

-- The selection finds a timer exactly if an enabled and active block has one that is due. It is a
-- pending timer of such a block, with that block's index and ID, it is due, and it is no later, by
-- deadline, then block ID, then timer name, than any due timer of an enabled and active block.
pub select_due_timer-Selects :
    (runtime : Runtime) (now : MonotonicMs) → Selects runtime now (select_due_timer runtime now)
unfolding select_due_timer
select_due_timer-Selects runtime now =
    elim (Option-cases (min_by candidate_cmp (candidates now 0 runtime.blocks))) [
      | inr (c, e) ↦ rw (e, select_due_timer) (selected runtime now c e)
      | inl e ↦
          rw (e, select_due_timer)
            (OfDue-every (λ block timer. ⊥) now runtime.blocks
              λ n other timer h a b w d.
                let (m, listed) = candidates-In now 0 runtime.blocks n other timer h a b w d in
                min_by-none (candidates now 0 runtime.blocks) (at m other timer) e listed)
    ]
