-- ===== src/Runtime/Schedules/Rebase.antt =====
-- New baselines, and the marks for them, keep every cursor ordered and every last delivery.
use logik_smith.Prelude.{
  map, ℕ, ◌≡◌, refl, Bool, true, false, Option, none, some, List, [], ◌∷◌, Bool-cases, inl, inr,
  subst, sym, if◌then◌else◌,
}
use logik_smith.Prelude.Int.{ℤ, ◌<ℤ◌}
use logik_smith.Prelude.Euclid.{max_i64}
use logik_smith.Prelude.Order.{list_ord, nat_ord, pair_ord, same}
use logik_smith.BTreeMap.{get, insert}
use logik_smith.BTreeMap.Laws.{All-insert}
use logik_smith.Execution.{SiteTimeConfig}
use logik_smith.Schedules.{ScheduleRule, ScheduleCursor}
use logik_smith.Schedules.Solar.{Calendar}
use logik_smith.Runtime.Schedules.{
  Key, Cursors, Entry, key_of, rebaselined, fresh_cursor, cursor_or_fresh,
}
use logik_smith.Runtime.Schedules.Delivery.{
  IsOrdered, IsBelowMax, MovesOn, MovesOn-refl, Precedes-none, rebaselined-IsOrdered,
}
use logik_smith.Identifiers.{BlockId}
use logik_smith.Runtime.Schedules.{mark_block, recompute, mark, mark_all}
use logik_smith.Runtime.Schedules.Advance.{
  last_of, AreOrdered, IsStep, IsStep-refl, IsStep-trans, write-IsStep, cursor_or_fresh-IsOrdered,
}
use logik_smith.Runtime.Schedules.Baseline.{
  initial_cursor, initial_cursors, rebaseline_cursor, rebaseline_entries,
}

mark-IsOrdered : (cursor : ScheduleCursor) → IsOrdered cursor → IsOrdered (mark cursor)
unfolding mark
mark-IsOrdered cursor o = record {
  below = o.below;
  ordered = Precedes-none cursor.last_delivered_utc_ms;
}

-- A change of cursors in place that keeps their order and their last deliveries
module _ (change : Key → ScheduleCursor → ScheduleCursor)
    (keeps : (key : Key) (cursor : ScheduleCursor)
      → IsOrdered cursor
      → IsOrdered (change key cursor))
    (last : (key : Key) (cursor : ScheduleCursor)
      → (change key cursor).last_delivered_utc_ms ≡ cursor.last_delivered_utc_ms) where
  abbrev changed : Cursors → Cursors
  changed cursors = map (λ e. (e.0, change e.0 e.1)) cursors

  changed-AreOrdered : (cursors : Cursors) → AreOrdered cursors → AreOrdered (changed cursors)
  changed-AreOrdered [] o = tt
  changed-AreOrdered ((key, cursor) ∷ rest) o = (keeps key cursor o.0, changed-AreOrdered rest o.1)

  last_of-changed :
      (key : Key) (cursors : Cursors) → last_of key (changed cursors) ≡ last_of key cursors
  unfolding get
  last_of-changed key [] = refl
  last_of-changed key ((other, cursor) ∷ rest) = elim (Bool-cases (same other key)) [
    | inl e ↦ rw (e, get) (last other cursor)
    | inr e ↦ rw (e, get) (last_of-changed key rest)
  ]

  changed-IsStep : (cursors : Cursors) → AreOrdered cursors → IsStep cursors (changed cursors)
  changed-IsStep cursors o = record {
    ordered = changed-AreOrdered cursors o;
    advances = λ key.
        subst (MovesOn (last_of key cursors)) (sym (last_of-changed key cursors))
          (MovesOn-refl (last_of key cursors));
  }

mark_last :
    (cursor : ScheduleCursor) → (mark cursor).last_delivered_utc_ms ≡ cursor.last_delivered_utc_ms
unfolding mark
mark_last cursor = refl

pub mark_all-IsStep : (cursors : Cursors) → AreOrdered cursors → IsStep cursors (mark_all cursors)
unfolding mark_all
mark_all-IsStep cursors o =
    changed-IsStep (λ key cursor. mark cursor) (λ key cursor p. mark-IsOrdered cursor p)
      (λ key cursor. mark_last cursor) cursors o

marked_if-IsOrdered :
    (b : Bool) (cursor : ScheduleCursor)
    → IsOrdered cursor
    → IsOrdered (if b then mark cursor else cursor)
marked_if-IsOrdered true cursor o = mark-IsOrdered cursor o
marked_if-IsOrdered false cursor o = o

marked_if_last :
    (b : Bool) (cursor : ScheduleCursor)
    → (if b then mark cursor else cursor).last_delivered_utc_ms ≡ cursor.last_delivered_utc_ms
marked_if_last true cursor = mark_last cursor
marked_if_last false cursor = refl

pub mark_block-IsStep :
    (id : BlockId) (cursors : Cursors) → AreOrdered cursors → IsStep cursors (mark_block id cursors)
unfolding mark_block
mark_block-IsStep id cursors o =
    changed-IsStep (λ key cursor. if same key.0 id then mark cursor else cursor)
      (λ key cursor p. marked_if-IsOrdered (same key.0 id) cursor p)
      (λ key cursor. marked_if_last (same key.0 id) cursor) cursors o

module _ (calendar : Calendar) (site : SiteTimeConfig) where
  IsOrdered-revision :
      (revision : ℕ) (cursor : ScheduleCursor)
      → IsOrdered cursor
      → IsOrdered (record cursor { structural_revision = revision })
  IsOrdered-revision revision cursor o = record { below = o.below; ordered = o.ordered }

  rebaselined_last :
      (rule : ScheduleRule) (utc : ℤ) (cursor : ScheduleCursor)
      → MovesOn cursor.last_delivered_utc_ms
          (rebaselined calendar site rule utc cursor).last_delivered_utc_ms
  unfolding rebaselined
  rebaselined_last rule utc cursor = MovesOn-refl cursor.last_delivered_utc_ms

  rebaseline_cursor-IsOrdered :
      (revision : ℕ) (utc : Option ℤ) (entry : Entry) (cursor : ScheduleCursor)
      → IsBelowMax utc
      → IsOrdered cursor
      → IsOrdered (rebaseline_cursor calendar site revision utc entry cursor)
        × MovesOn cursor.last_delivered_utc_ms
            (rebaseline_cursor calendar site revision utc entry cursor).last_delivered_utc_ms
  unfolding rebaseline_cursor
  rebaseline_cursor-IsOrdered revision none entry cursor h o = (
    mark-IsOrdered _ (IsOrdered-revision revision cursor o),
    MovesOn-refl cursor.last_delivered_utc_ms,
  )
  rebaseline_cursor-IsOrdered revision (some utc) entry cursor h o = (
    (rebaselined-IsOrdered calendar site entry.1.rule utc
        (record cursor { structural_revision = revision }) h
        (IsOrdered-revision revision cursor o)).0,
    rebaselined_last entry.1.rule utc (record cursor { structural_revision = revision }),
  )

  pub rebaseline_entries-IsStep :
      (revision : ℕ) (utc : Option ℤ) (entries : List Entry) (cursors : Cursors)
      → IsBelowMax utc
      → AreOrdered cursors
      → IsStep cursors (rebaseline_entries calendar site revision utc entries cursors)
  unfolding rebaseline_entries
  rebaseline_entries-IsStep revision utc [] cursors h o = IsStep-refl cursors o
  rebaseline_entries-IsStep revision utc (entry ∷ entries) cursors h o =
      let key = key_of entry in
      let cursor = cursor_or_fresh revision key cursors in
      let (ordered, moves) =
        rebaseline_cursor-IsOrdered revision utc entry cursor h
          (cursor_or_fresh-IsOrdered revision key cursors o) in
      let after = insert key (rebaseline_cursor calendar site revision utc entry cursor) cursors in
      let step = write-IsStep revision key _ cursors o ordered moves in
      IsStep-trans cursors after _ step
        (rebaseline_entries-IsStep revision utc entries after h step.ordered)

  -- The recomputation of all cursors is the new baseline of their blocks.
  recompute-eq-rebaseline_entries :
      (revision : ℕ) (utc : ℤ) (entries : List Entry) (cursors : Cursors)
      → recompute calendar site revision utc entries cursors
        ≡ rebaseline_entries calendar site revision (some utc) entries cursors
  unfolding recompute rebaseline_entries
  recompute-eq-rebaseline_entries revision utc [] cursors = refl
  recompute-eq-rebaseline_entries revision utc (entry ∷ entries) cursors =
      recompute-eq-rebaseline_entries revision utc entries _

  pub recompute-IsStep :
      (revision : ℕ) (utc : ℤ) (entries : List Entry) (cursors : Cursors)
      → utc <ℤ max_i64
      → AreOrdered cursors
      → IsStep cursors (recompute calendar site revision utc entries cursors)
  recompute-IsStep revision utc entries cursors h o =
      rw (recompute-eq-rebaseline_entries revision utc entries cursors)
        (rebaseline_entries-IsStep revision (some utc) entries cursors h o)

  -- Fresh baselines at a valid clock
  initial_cursor-IsOrdered :
      (revision : ℕ) (utc : Option ℤ) (entry : Entry)
      → IsOrdered (initial_cursor calendar site revision utc entry)
  unfolding initial_cursor fresh_cursor
  initial_cursor-IsOrdered revision none entry = record { below = tt; ordered = tt }
  initial_cursor-IsOrdered revision (some utc) entry = record { below = tt; ordered = tt }

  pub initial_cursors-AreOrdered :
      (revision : ℕ) (utc : Option ℤ) (entries : List Entry) (cursors : Cursors)
      → AreOrdered cursors
      → AreOrdered (initial_cursors calendar site revision utc entries cursors)
  unfolding initial_cursors
  initial_cursors-AreOrdered revision utc [] cursors o = o
  initial_cursors-AreOrdered revision utc (entry ∷ entries) cursors o =
      initial_cursors-AreOrdered revision utc entries _ (
        All-insert (λ p. IsOrdered p.1) (key_of entry) _ cursors
          (initial_cursor-IsOrdered revision utc entry) o)
