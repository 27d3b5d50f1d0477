-- ===== src/Schedules/Interval.antt =====
-- An interval rule fires at the first instant of its phase after the baseline.
use logik_smith.Prelude.{
  ℕ, ◌+◌, ◌-◌, ◌*◌, ◌^◌, ◌<◌, ◌≡◌, refl, ◌==◌, some, arith, ap, Bool-cases, inl, inr, if◌then◌else◌,
  ==_iff,
}
use logik_smith.Prelude.Int.{
  ℤ, pos, negsuc, ◌+ℤ◌, ◌-ℤ◌, ◌≤ℤ◌, ◌<ℤ◌, pos_part, neg_part, int_laws, +ℤ_parts, eq_of_parts,
}
use logik_smith.Prelude.Euclid.{
  div_euclid, rem_euclid, scale, saturating_i64, max_i64, scale_parts, div_euclid_lem,
  rem_euclid-lt, scale_mono, scale_cancel,
}
use native.Mathlib.Nat.{add-mul, zero-mul, one-mul}
use logik_smith.Schedules.Occurrence.{interval_second, interval_after}

-- The quotient rounded up.
abbrev round_up : ℤ → ℕ → ℤ
round_up a n = div_euclid a n +ℤ pos (if rem_euclid a n == 0 then 0 else 1)

-- An instant in milliseconds, from the number of its period.
abbrev pub phase_ms : ℕ → ℕ → ℤ → ℤ
phase_ms seconds offset k = scale (pos offset +ℤ scale k seconds) 1000

scale-add : (a : ℤ) (m n : ℕ) → scale (a +ℤ pos m) n ≡ scale a n +ℤ pos (m * n)
scale-add a m n =
    let sum_parts = +ℤ_parts a (pos m) in
    let times : (pos_part (a +ℤ pos m) + neg_part a) * n
        ≡ (neg_part (a +ℤ pos m) + (pos_part a + m)) * n =
      ap (λ (t : ℕ). t * n) (omega (arith, sum_parts)) in
    eq_of_parts _ _ (
      omega (
        arith,
        times,
        scale_parts (a +ℤ pos m) n,
        scale_parts a n,
        +ℤ_parts (scale a n) (pos (m * n)),
        add-mul (pos_part (a +ℤ pos m)) (neg_part a) n,
        add-mul (neg_part (a +ℤ pos m)) (pos_part a + m) n,
        add-mul (pos_part a) m n,
      ))

-- The multiple of the rounded quotient is not below, by less than one step.
round_up_bounds :
    (a : ℤ) (n : ℕ) → 0 < n → (a ≤ℤ scale (round_up a n) n) × (scale (round_up a n) n <ℤ a +ℤ pos n)
round_up_bounds a n h =
    let whole = div_euclid_lem a n h in
    let below = rem_euclid-lt a n h in
    let q = div_euclid a n in
    let sum_parts = +ℤ_parts (scale q n) (pos (rem_euclid a n)) in
    let positive : pos_part (scale q n +ℤ pos (rem_euclid a n)) ≡ pos_part a = ap pos_part whole in
    let negative : neg_part (scale q n +ℤ pos (rem_euclid a n)) ≡ neg_part a = ap neg_part whole in
    let step = +ℤ_parts a (pos n) in
    elim (Bool-cases (rem_euclid a n == 0)) [
      | inl e ↦
          let exact : rem_euclid a n ≡ 0 = (==_iff _ 0).0 e in
          rw (e, scale-add q 0 n)
            (omega (
              arith,
              +ℤ_parts (scale q n) (pos (0 * n)),
              sum_parts,
              positive,
              negative,
              exact,
              step,
              zero-mul n,
            ))
      | inr e ↦
          let rest : 0 < rem_euclid a n = ground arith in
          rw (e, scale-add q 1 n)
            (omega (
              arith,
              +ℤ_parts (scale q n) (pos (1 * n)),
              sum_parts,
              positive,
              negative,
              rest,
              step,
              below,
              one-mul n,
            ))
    ]

round_up_least : (a j : ℤ) (n : ℕ) → 0 < n → a ≤ℤ scale j n → round_up a n ≤ℤ j
round_up_least a j n h k =
    scale_cancel (round_up a n) j n (
      omega (arith, (round_up_bounds a n h).1, +ℤ_parts a (pos n), +ℤ_parts (scale j n) (pos n), k))

-- The rule fires in phase, after the baseline, and at no later instant than any other of its phase
-- after the baseline.
pub record IsFirst (seconds offset : ℕ) (after found : ℤ) : Type 0 where
  pub in_phase : (k : ℤ) × (found ≡ phase_ms seconds offset k)
  pub later : after <ℤ found
  pub first : (j : ℤ) → after <ℤ phase_ms seconds offset j → found ≤ℤ phase_ms seconds offset j

module _ (seconds offset : ℕ) (after : ℤ) (positive : 0 < seconds) where
  abbrev second : ℤ
  second = div_euclid after 1000

  abbrev numerator : ℤ
  numerator = second +ℤ pos 1 -ℤ pos offset

  -- The whole second of the baseline starts no later, and ends after it.
  second_bounds : (scale second 1000 ≤ℤ after) × (after <ℤ scale (second +ℤ pos 1) 1000)
  second_bounds =
      let whole = div_euclid_lem after 1000 (omega arith) in
      let below = rem_euclid-lt after 1000 (omega arith) in
      let sum_parts = +ℤ_parts (scale second 1000) (pos (rem_euclid after 1000)) in
      let high = ap pos_part whole in
      let low = ap neg_part whole in
      let step = +ℤ_parts (scale second 1000) (pos (1 * 1000)) in
      (
        omega (arith, sum_parts, high, low),
        rw (scale-add second 1 1000) (omega (arith, sum_parts, high, low, below, step)),
      )

  interval_second_bounds :
      (second +ℤ pos 1 ≤ℤ interval_second seconds offset after)
      × (interval_second seconds offset after ≤ℤ second +ℤ pos seconds)
  unfolding interval_second
  interval_second_bounds =
      let bounds = round_up_bounds numerator seconds positive in
      let multiple = scale (round_up numerator seconds) seconds in
      (omega (int_laws, bounds.0), omega (int_laws, bounds.1))

  phase_after :
      (j : ℤ)
      → after <ℤ phase_ms seconds offset j
      → interval_second seconds offset after ≤ℤ pos offset +ℤ scale j seconds
  unfolding interval_second
  phase_after j h =
      let later =
        scale_cancel (second +ℤ pos 1) (pos offset +ℤ scale j seconds) 1000
          (rw (scale-add second 1 1000) (omega (int_laws, h, second_bounds.0))) in
      let multiple =
        scale_mono (round_up numerator seconds) j seconds
          (round_up_least numerator j seconds positive (omega (int_laws, later))) in
      omega (int_laws, multiple)

  pub second_later : after <ℤ scale (interval_second seconds offset after) 1000
  second_later = omega (
    arith,
    second_bounds.1,
    scale_mono (second +ℤ pos 1) (interval_second seconds offset after) 1000
        interval_second_bounds.0,
  )

  second_no_later :
      scale (interval_second seconds offset after) 1000 ≤ℤ after +ℤ pos (seconds * 1000)
  second_no_later =
      let bound =
        scale_mono (interval_second seconds offset after) (second +ℤ pos seconds) 1000
          interval_second_bounds.1 in
      let bound' = rw (scale-add second seconds 1000) at bound in
      omega (int_laws, bound', second_bounds.0)

in_range : (t : ℤ) → negsuc (2 ^ 63 - 1) ≤ℤ t → t ≤ℤ max_i64 → saturating_i64 t ≡ t
unfolding saturating_i64
in_range (pos n) h k = ground arith
in_range (negsuc n) h k = ground arith

-- With a positive period, a baseline that is an `i64`, and room for one period more, the interval
-- branch finds an instant of the rule's phase that is after the baseline, and no later than any other
-- instant of the phase that is after the baseline.
pub interval_after-IsFirst :
    (seconds offset : ℕ) (after : ℤ)
    → 0 < seconds
    → negsuc (2 ^ 63 - 1) ≤ℤ after
    → after +ℤ pos (seconds * 1000) ≤ℤ max_i64
    → (found : ℤ) × (interval_after seconds offset after ≡ some found)
      × IsFirst seconds offset after found
unfolding interval_after interval_second
interval_after-IsFirst seconds offset after h low high =
    let found = scale (interval_second seconds offset after) 1000 in
    let later = second_later seconds offset after h in
    let bound = second_no_later seconds offset after h in
    (
      found,
      rw (in_range found (omega (arith, low, later)) (omega (arith, bound, high))) (ground arith),
      record {
        in_phase = (round_up (numerator seconds offset after h) seconds, refl);
        later = later;
        first = λ j k.
            scale_mono (interval_second seconds offset after) (pos offset +ℤ scale j seconds) 1000
              (phase_after seconds offset after h j k);
      },
    )
