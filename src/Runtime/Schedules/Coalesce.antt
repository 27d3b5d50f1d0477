-- ===== src/Runtime/Schedules/Coalesce.antt =====
-- The coalescing loop of a poll walks the occurrences that passed, to the last one.
use logik_smith.Prelude.{
  ℕ, zero, suc, ◌+◌, ◌<◌, ◌≡◌, refl, some, arith, Bool-cases, Option-cases, inl, inr, subst,
}
use logik_smith.Prelude.Int.{ℤ, pos_part, ◌-ℤ◌, ◌≤ℤ◌, ◌<ℤ◌, leb_ℤ}
use logik_smith.Prelude.Euclid.{max_i64}
use logik_smith.Execution.{SiteTimeConfig}
use logik_smith.Schedules.{ScheduleRule}
use logik_smith.Schedules.Solar.{Calendar}
use logik_smith.Schedules.Occurrence.{next_occurrence_after}
use logik_smith.Schedules.After.{IsAfter, next_occurrence_after-IsAfter}
use logik_smith.Runtime.Schedules.Poll.{coalesce, fuel_for}

distance :
    (now last next : ℤ)
    → last <ℤ next
    → next ≤ℤ now
    → pos_part (now -ℤ next) < pos_part (now -ℤ last)
unfolding ◌-ℤ◌
distance now last next h k = ground arith

module _ (calendar : Calendar) (site : SiteTimeConfig) where
  -- `to` is the `count`-th occurrence after `from`.
  pub data Passed (rule : ScheduleRule) (from : ℤ) : ℤ → ℕ → Type 0 where
    here : Passed rule from from 0
    then_next :
        {mid to : ℤ} {count : ℕ}
        → Passed rule from mid count
        → next_occurrence_after calendar rule site mid ≡ some to
        → Passed rule from to (suc count)

  -- The latest occurrence up to `now`, and how many passed on the way.
  pub record IsLatest (rule : ScheduleRule) (now first : ℤ) (found : ℤ × ℕ) : Type 0 where
    pub passed : (n : ℕ) × (found.1 ≡ suc n) × Passed rule first found.0 n
    pub due : found.0 ≤ℤ now
    pub no_earlier : first ≤ℤ found.0
    pub last : IsAfter now (next_occurrence_after calendar rule site found.0)

  coalesce-IsLatest :
      (rule : ScheduleRule) (now first : ℤ) (fuel : ℕ) (last : ℤ) (n : ℕ)
      → now <ℤ max_i64
      → Passed rule first last n
      → last ≤ℤ now
      → first ≤ℤ last
      → pos_part (now -ℤ last) < fuel
      → IsLatest rule now first (coalesce calendar site rule now fuel last (suc n))
  unfolding coalesce
  coalesce-IsLatest rule now first zero last n bound walk due order enough = absurd (omega arith)
  coalesce-IsLatest rule now first (suc fuel) last n bound walk due order enough =
      elim (Option-cases (next_occurrence_after calendar rule site last)) [
        | inl e ↦
            rw (e, coalesce)
              (record { passed = (n, refl, walk); due = due; no_earlier = order; last = rw e tt })
        | inr (occurrence, e) ↦
            let later : last <ℤ occurrence =
              subst (IsAfter last) e
                (next_occurrence_after-IsAfter calendar rule site last (omega arith)) in
            elim (Bool-cases (leb_ℤ occurrence now)) [
              | inl f ↦
                  let due_next : occurrence ≤ℤ now = ground arith in
                  let one_more : suc (suc n) ≡ suc n + 1 = omega arith in
                  rw (e, f, coalesce)
                    (subst
                      (λ k.
                        IsLatest rule now first (coalesce calendar site rule now fuel occurrence k))
                      one_more
                      (coalesce-IsLatest rule now first fuel occurrence (suc n) bound
                        (then_next walk e) (ground arith) (omega (arith, later, order))
                        (omega (arith, enough, distance now last occurrence later due_next))))
              | inr f ↦
                  rw (e, f, coalesce)
                    (record {
                      passed = (n, refl, walk);
                      due = due;
                      no_earlier = order;
                      last = rw e (ground arith);
                    })
            ]
      ]

  -- With the fuel of the poll, the loop ends because the next occurrence is in the future.
  pub coalesce_lem :
      (rule : ScheduleRule) (now first : ℤ)
      → now <ℤ max_i64
      → first ≤ℤ now
      → IsLatest rule now first (coalesce calendar site rule now (fuel_for now first) first 1)
  coalesce_lem rule now first bound due =
      coalesce-IsLatest rule now first (fuel_for now first) first 0 bound here due (omega arith)
        (omega arith)
