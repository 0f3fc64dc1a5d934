-- ===== src/Decimal/Percent.antt =====
-- What `PercentOf` of internal/decimal/decimal.go rounds to.
use homepi_mon.Common.{ℕ, ◌+◌, ◌*◌, ◌^◌, ◌≤◌, ◌<◌, ◌≡◌, some, arith}
use native.Mathlib.Nat.{div-lt_iff_lt-mul, mul-div-le, lt-mul-div-succ, one-le-pow, div-eq_of_lt}
use homepi_mon.Common.Int.{pos}
use homepi_mon.Decimal.{percent_of, round_half_up}

round_half_up-zero : (den : ℕ) → 0 < den → round_half_up 0 den ≡ 0
unfolding round_half_up
round_half_up-zero den h = div-eq_of_lt (omega arith)

-- The quotient times twice the denominator is within one rounding step of twice the numerator.
round_half_up_bounds :
    (x den : ℕ)
    → 0 < den
    → (2 * den * round_half_up x den ≤ 2 * x + den)
      × (2 * x + den < 2 * den * (round_half_up x den + 1))
unfolding round_half_up
round_half_up_bounds x den h =
    (mul-div-le (2 * x + den) (2 * den), lt-mul-div-succ (2 * x + den) (omega arith))

round_half_up-le : (x den : ℕ) → 0 < den → x ≤ den → round_half_up (x * 100) den ≤ 100
unfolding round_half_up
round_half_up-le x den h l =
    let below =
      (div-lt_iff_lt-mul {k = 2 * den} {x = 2 * (x * 100) + den} {y = 101} (omega arith)).1
        (omega arith) in
    omega (arith, below)

-- The percentage of a value that is not negative and not above a positive limit: it is defined, from
-- 0 to 100, and the multiple of a hundredth of the limit that is nearest to the value, the upper one
-- of two.
pub percent_of_lem :
    (n scale : ℕ) (limit_units limit_scale : ℕ)
    → 0 < limit_units
    → n * 10 ^ limit_scale ≤ limit_units * 10 ^ scale
    → let den = limit_units * 10 ^ scale in
      let num = n * 10 ^ limit_scale * 100 in
      (p : ℕ) × (percent_of
          (record { unscaled = pos n; scale = scale })
          (record { unscaled = pos limit_units; scale = limit_scale })
        ≡ some (pos p))
      × (p ≤ 100)
      × (2 * den * p ≤ 2 * num + den)
      × (2 * num + den < 2 * den * (p + 1))
unfolding percent_of
percent_of_lem n scale limit_units limit_scale h l =
    let den = limit_units * 10 ^ scale in
    let some_den : 0 < den = grind (arith, one-le-pow scale 10 (omega arith)) in
    let p = round_half_up (n * 10 ^ limit_scale * 100) den in
    let small = round_half_up-le (n * 10 ^ limit_scale) den some_den l in
    let (low, high) = round_half_up_bounds (n * 10 ^ limit_scale * 100) den some_den in
    (p, ground (arith, small, round_half_up-zero den some_den), small, low, high)
