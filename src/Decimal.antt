-- ===== src/Decimal.antt =====
-- internal/decimal/decimal.go: exact base-10 values, unscaled * 10^-scale, as far as the wire model
-- compares, subtracts and relates them. Text has the text forms.
pub mod Percent
pub mod Text
mod Tests
use homepi_mon.Common.{
  ℕ, ◌+◌, ◌-◌, ◌*◌, ◌/◌, ◌^◌, Bool, Option, none, some, leb, ◌==◌, if◌then◌else◌,
}
use homepi_mon.Common.Int.{ℤ, pos, negsuc, pos_part, neg_part, sub_ℕ, leb_ℤ}
use homepi_mon.Common.Time.{max_int64}

-- `unscaled` is an int64 and `scale` an int32 that no code makes negative.
pub record Decimal : Type 0 where
  pub unscaled : ℤ
  pub scale : ℕ

unfoldable pub is_zero : Decimal → Bool
is_zero d = (pos_part d.unscaled + neg_part d.unscaled) == 0

-- `n * 10^exp`, the product of a big.Int with `pow10`.
unfoldable pub scale_up : ℤ → ℕ → ℤ
scale_up (pos n) e = pos (n * 10 ^ e)
scale_up (negsuc n) e = sub_ℕ 0 ((n + 1) * 10 ^ e)

-- `Cmp`, as the order of the two fractions over a common denominator: `d.Cmp(o) <= 0`.
unfoldable pub cmp_le : Decimal → Decimal → Bool
unfolding scale_up
cmp_le d o = leb_ℤ (scale_up d.unscaled o.scale) (scale_up o.unscaled d.scale)

-- `IsInt64`.
abbrev pub is_int64 : ℤ → Bool
is_int64 (pos n) = leb n max_int64
is_int64 (negsuc n) = leb n max_int64

-- `none` is the subtraction overflow.
unfoldable pub sub : Decimal → Decimal → Option Decimal
unfolding scale_up
sub d o =
    let scale = if leb o.scale d.scale then d.scale else o.scale in
    let left = scale_up d.unscaled (scale - d.scale) in
    let right = scale_up o.unscaled (scale - o.scale) in
    let diff = sub_ℕ (pos_part left + neg_part right) (neg_part left + pos_part right) in
    if is_int64 diff then some (record { unscaled = diff; scale = scale }) else none

-- `FloatString(0)` of num / den, which rounds half away from zero, for a magnitude.
unfoldable pub round_half_up : ℕ → ℕ → ℕ
round_half_up num den = (2 * num + den) / (2 * den)

-- An integer percentage, and `none` where the limit is not positive or the result no int64.
unfoldable pub percent_of : Decimal → Decimal → Option ℤ
unfolding round_half_up
percent_of d limit =
    let den = pos_part limit.unscaled * 10 ^ d.scale in
    let up = λ (n : ℕ). round_half_up (n * 10 ^ limit.scale * 100) den in
    let q = sub_ℕ (up (pos_part d.unscaled)) (up (neg_part d.unscaled)) in
    if pos_part limit.unscaled == 0 then none else if is_int64 q then some q else none
