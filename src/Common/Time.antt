-- ===== src/Common/Time.antt =====
-- Go's time package, as far as the code uses it. An instant is the number of nanoseconds since
-- Go's zero time, so that 0 is the value of which `IsZero` holds; earlier instants are left out.
use homepi_mon.Common.{ℕ, ◌+◌, ◌-◌, ◌*◌, ◌/◌, min, leb, ◌==◌, if◌then◌else◌}
use homepi_mon.Common.Int.{ℤ, pos, negsuc}

abbrev pub second : ℕ
second = 1_000_000_000

abbrev pub minute : ℕ
minute = 60 * second

abbrev pub hour : ℕ
hour = 60 * minute

-- The largest int64, which bounds a `time.Duration`.
abbrev pub max_int64 : ℕ
max_int64 = 9_223_372_036_854_775_807

-- `t.Sub(u)`: it saturates at the ends of int64.
unfoldable pub sub_time : ℕ → ℕ → ℤ
sub_time t u = if leb u t then pos (min (t - u) max_int64) else negsuc (min (u - t - 1) max_int64)

-- `d.Milliseconds()`, which rounds towards zero.
unfoldable pub milliseconds : ℤ → ℤ
milliseconds (pos n) = pos (n / 1_000_000)
milliseconds (negsuc n) = let q = (n + 1) / 1_000_000 in if q == 0 then pos 0 else negsuc (q - 1)
