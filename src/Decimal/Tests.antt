-- ===== src/Decimal/Tests.antt =====
-- Percentages and texts of internal/decimal/decimal.go.
use homepi_mon.Common.{ℕ, ◌+◌, ◌*◌, ◌^◌, ◌≤◌, ◌<◌, ◌≡◌, some, arith}
use homepi_mon.Common.Int.{pos}
use homepi_mon.Decimal.{percent_of}
use homepi_mon.Common.{ok, codes, refl}
use homepi_mon.Common.Int.{negsuc}
use homepi_mon.Common.Time.{max_int64}
use homepi_mon.Decimal.Text.{parse, parse_int, parse_signed, to_string}
use homepi_mon.Decimal.Text.Roundtrip.{parse-to_string}
use homepi_mon.Decimal.Percent.{percent_of_lem}

-- 1.20 of 3.
percent_of_lem_example :
    let den = 3 * 10 ^ 2 in
    let num = 120 * 10 ^ 0 * 100 in
    (p : ℕ) × (percent_of
        (record { unscaled = pos 120; scale = 2 })
        (record { unscaled = pos 3; scale = 0 })
      ≡ some (pos p))
    × (p ≤ 100)
    × (2 * den * p ≤ 2 * num + den)
    × (2 * num + den < 2 * den * (p + 1))
percent_of_lem_example = percent_of_lem 120 2 3 0 (omega arith) (omega arith)

-- -0.05
parse-to_string_example :
    parse (to_string (record { unscaled = negsuc 4; scale = 2 }))
    ≡ ok (record { unscaled = negsuc 4; scale = 2 })
parse-to_string_example = parse-to_string (negsuc 4) 2 (omega arith) (omega arith)

minus_five_cents : to_string (record { unscaled = negsuc 4; scale = 2 }) ≡ codes "-0.05"
unfolding to_string
minus_five_cents = refl

-- The least int64, which is its own opposite, is written with two signs.
two_signs :
    to_string (record { unscaled = negsuc max_int64; scale = 1 }) ≡ codes "--922337203685477580.8"
unfolding to_string
two_signs = refl

-- Parse does not keep a plus sign, zeros in front or the sign of zero.
reads_plus : parse (codes " +007.50") ≡ ok (record { unscaled = pos 750; scale = 2 })
unfolding parse parse_signed parse_int
reads_plus = refl

minus_zero : parse (codes "-0") ≡ ok (record { unscaled = pos 0; scale = 0 })
unfolding parse parse_signed parse_int
minus_zero = refl
