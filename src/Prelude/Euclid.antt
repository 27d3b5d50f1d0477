-- ===== src/Prelude/Euclid.antt =====
-- `i64::div_euclid` and `rem_euclid` by a positive number, multiples, and saturation at 64 bits.
use Prim.Native.Nat.{ℕ, suc, ◌+◌, ◌-◌, ◌*◌, ◌/◌, ◌%◌, ◌^◌, ◌<◌, min}
use mathlib.Core.Path.{◌≡◌}
use native.Mathlib.Nat.{div-add-mod', mod-lt, add-mul, suc-mul, mul-le-mul_right}
use native.Mathlib.Omega.{arith}
use native.Mathlib.Decide.{dec_lt}
use logik_smith.Prelude.Int.{
  ℤ, pos, negsuc, pos_part, neg_part, sub_ℕ, ◌+ℤ◌, ◌≤ℤ◌, ◌<ℤ◌, eq_of_parts, +ℤ_parts,
}

-- The quotient rounded down.
unfoldable pub div_euclid : ℤ → ℕ → ℤ
div_euclid (pos a) n = pos (a / n)
div_euclid (negsuc a) n = negsuc (a / n)

unfoldable pub rem_euclid : ℤ → ℕ → ℕ
rem_euclid (pos a) n = a % n
rem_euclid (negsuc a) n = n - 1 - a % n

-- `a * n`
unfoldable pub scale : ℤ → ℕ → ℤ
scale a n = sub_ℕ (pos_part a * n) (neg_part a * n)

abbrev pub max_i64 : ℤ
max_i64 = pos (2 ^ 63 - 1)

-- An `i64` operation that saturates.
unfoldable pub saturating_i64 : ℤ → ℤ
saturating_i64 (pos n) = pos (min n (2 ^ 63 - 1))
saturating_i64 (negsuc n) = negsuc (min n (2 ^ 63 - 1))

pub scale_parts :
    (a : ℤ) (n : ℕ) → pos_part (scale a n) + neg_part a * n ≡ neg_part (scale a n) + pos_part a * n
unfolding scale
scale_parts a n = ground arith

pub div_euclid_lem : (a : ℤ) (n : ℕ) → 0 < n → scale (div_euclid a n) n +ℤ pos (rem_euclid a n) ≡ a
unfolding div_euclid rem_euclid
div_euclid_lem (pos a) n h =
    let whole = div-add-mod' a n in
    let quotient = scale_parts (pos (a / n)) n in
    eq_of_parts _ _ (omega (arith, +ℤ_parts (scale (pos (a / n)) n) (pos (a % n)), quotient, whole))
div_euclid_lem (negsuc a) n h =
    let whole = div-add-mod' a n in
    let below = mod-lt a h in
    let next : suc (a / n) * n ≡ a / n * n + n = suc-mul (a / n) n in
    let quotient = scale_parts (negsuc (a / n)) n in
    eq_of_parts _ _ (
      omega (
        arith,
        +ℤ_parts (scale (negsuc (a / n)) n) (pos (n - 1 - a % n)),
        quotient,
        next,
        whole,
        below,
      ))

pub rem_euclid-lt : (a : ℤ) (n : ℕ) → 0 < n → rem_euclid a n < n
unfolding rem_euclid
rem_euclid-lt (pos a) n h = mod-lt a h
rem_euclid-lt (negsuc a) n h = omega (arith, mod-lt a h)

pub scale_mono : (a b : ℤ) (n : ℕ) → a ≤ℤ b → scale a n ≤ℤ scale b n
scale_mono a b n h = omega (
  arith,
  scale_parts a n,
  scale_parts b n,
  mul-le-mul_right n h,
  add-mul (pos_part a) (neg_part b) n,
  add-mul (pos_part b) (neg_part a) n,
)

-- A multiple below the successor of another is no greater than that.
pub scale_cancel : (a b : ℤ) (n : ℕ) → scale a n <ℤ scale b n +ℤ pos n → a ≤ℤ b
scale_cancel a b n h = elim (dec_lt (pos_part b + neg_part a) (pos_part a + neg_part b)) [
  | no p ↦ omega arith
  | yes p ↦ absurd (
      omega (
        arith,
        h,
        +ℤ_parts (scale b n) (pos n),
        scale_parts a n,
        scale_parts b n,
        mul-le-mul_right n p,
        add-mul 1 (pos_part b + neg_part a) n,
        add-mul (pos_part a) (neg_part b) n,
        add-mul (pos_part b) (neg_part a) n,
      ))
]
