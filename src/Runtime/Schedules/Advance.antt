-- ===== src/Runtime/Schedules/Advance.antt =====
-- Writes of cursors that keep every cursor ordered and every last delivery.
use logik_smith.Prelude.{
  ℕ, ◌≡◌, refl, Bool, true, false, Option, none, some, Bool-cases, Option-cases, inl, inr, subst,
  sym, ap, ◌∙◌, All, if◌then◌else◌,
}
use logik_smith.Prelude.Int.{ℤ}
use logik_smith.Prelude.Order.{list_ord, nat_ord, pair_ord, same, same_iff}
use logik_smith.BTreeMap.{get, insert}
use logik_smith.BTreeMap.Laws.{get-insert, All-insert, All-get}
use logik_smith.Schedules.{ScheduleCursor}
use logik_smith.Schedules.After.{IsAfter}
use logik_smith.Runtime.Schedules.{Key, Cursors, fresh_cursor, cursor_or_fresh}
use logik_smith.Runtime.Schedules.Delivery.{IsOrdered, MovesOn, MovesOn-refl, MovesOn-trans}

-- The last delivery of a schedule
abbrev pub last_in : Option ScheduleCursor → Option ℤ
last_in none = none
last_in (some c) = c.last_delivered_utc_ms

abbrev pub last_of : Key → Cursors → Option ℤ
last_of key cursors = last_in (get key cursors)

-- Every cursor is ordered.
abbrev pub AreOrdered : Cursors → Type 0
AreOrdered cursors = All (λ e. IsOrdered e.1) cursors

-- No last delivery is lost.
abbrev pub Advances : Cursors → Cursors → Type 0
Advances before after = (key : Key) → MovesOn (last_of key before) (last_of key after)

-- A schedule that needs no baseline and is due in the future
pub record IsSettled (now : ℤ) (cursor : ScheduleCursor) : Type 0 where
  pub based : cursor.needs_rebaseline ≡ false
  pub future : IsAfter now cursor.next_occurrence_utc_ms

pub Advances-trans : (a b c : Cursors) → Advances a b → Advances b c → Advances a c
Advances-trans a b c h k key =
    MovesOn-trans (last_of key a) (last_of key b) (last_of key c) (h key) (k key)

pub cursor_or_fresh-IsOrdered :
    (revision : ℕ) (key : Key) (cursors : Cursors)
    → AreOrdered cursors
    → IsOrdered (cursor_or_fresh revision key cursors)
unfolding cursor_or_fresh fresh_cursor
cursor_or_fresh-IsOrdered revision key cursors o = elim (Option-cases (get key cursors)) [
  | inl e ↦ rw (e, cursor_or_fresh) (record { below = tt; ordered = tt })
  | inr (c, e) ↦ rw (e, cursor_or_fresh) (All-get (λ p. IsOrdered p.1) key cursors o e)
]

-- The last delivery of the cursor that a step works on
pub last_of-cursor_or_fresh :
    (revision : ℕ) (key : Key) (cursors : Cursors)
    → last_of key cursors ≡ (cursor_or_fresh revision key cursors).last_delivered_utc_ms
unfolding cursor_or_fresh fresh_cursor
last_of-cursor_or_fresh revision key cursors = elim (Option-cases (get key cursors)) [
  | inl e ↦ rw (e, cursor_or_fresh) refl
  | inr (c, e) ↦ rw (e, cursor_or_fresh) refl
]

last_of-insert :
    (key other : Key) (after : ScheduleCursor) (cursors : Cursors) (hit : Bool)
    → same key other ≡ hit
    → last_of other (insert key after cursors)
      ≡ (if hit then after.last_delivered_utc_ms else last_of other cursors)
last_of-insert key other after cursors true e =
    ap last_in (get-insert key other after cursors)
    ∙ ap (λ b. last_in (if b then some after else get other cursors)) e
last_of-insert key other after cursors false e =
    ap last_in (get-insert key other after cursors)
    ∙ ap (λ b. last_in (if b then some after else get other cursors)) e

-- A write of a cursor that keeps the last delivery
pub insert-Advances :
    (key : Key) (after : ScheduleCursor) (cursors : Cursors)
    → MovesOn (last_of key cursors) after.last_delivered_utc_ms
    → Advances cursors (insert key after cursors)
insert-Advances key after cursors h other = elim (Bool-cases (same key other)) [
  | inl e ↦
      let same_key : key ≡ other = (same_iff key other).0 e in
      subst (MovesOn (last_of other cursors)) (sym (last_of-insert key other after cursors true e))
        (subst (λ k. MovesOn (last_of k cursors) after.last_delivered_utc_ms) same_key h)
  | inr e ↦
      subst (MovesOn (last_of other cursors)) (sym (last_of-insert key other after cursors false e))
        (MovesOn-refl (last_of other cursors))
]

-- A step: the cursors stay ordered, and no last delivery is lost.
pub record IsStep (before after : Cursors) : Type 0 where
  pub ordered : AreOrdered after
  pub advances : Advances before after

-- A write of an ordered cursor, which keeps or moves on the last delivery of the one before it
pub write-IsStep :
    (revision : ℕ) (key : Key) (after : ScheduleCursor) (cursors : Cursors)
    → AreOrdered cursors
    → IsOrdered after
    → MovesOn
        (cursor_or_fresh revision key cursors).last_delivered_utc_ms
        after.last_delivered_utc_ms
    → IsStep cursors (insert key after cursors)
write-IsStep revision key after cursors o a m = record {
  ordered = All-insert (λ p. IsOrdered p.1) key after cursors a o;
  advances = insert-Advances key after cursors (
      subst (λ d. MovesOn d after.last_delivered_utc_ms)
        (sym (last_of-cursor_or_fresh revision key cursors)) m);
}

pub IsStep-trans : (a b c : Cursors) → IsStep a b → IsStep b c → IsStep a c
IsStep-trans a b c h k = record {
  ordered = k.ordered;
  advances = Advances-trans a b c h.advances k.advances;
}

pub IsStep-refl : (cursors : Cursors) → AreOrdered cursors → IsStep cursors cursors
IsStep-refl cursors o = record { ordered = o; advances = λ key. MovesOn-refl (last_of key cursors) }
