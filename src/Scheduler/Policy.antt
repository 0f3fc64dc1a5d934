-- ===== src/Scheduler/Policy.antt =====
-- internal/scheduler/policy.go. Durations are nanoseconds; those of a policy are not negative. Go
-- computes the exponential and the jitter in float64: the exponential is exact, as a power of two
-- times a duration below 2^53 ns; the jitter of a delay comes in as a function, since its rounding is
-- the hardware's. A Retry-After of zero or less stands for none.
use homepi_mon.Common.{
  ℕ, ◌-◌, ◌*◌, ◌%◌, ◌^◌, Bool, true, false, ◌||◌, ltb, leb, ◌==◌, min, if◌then◌else◌,
}
use homepi_mon.Common.Time.{second, minute, hour, max_int64}
use homepi_mon.Common.Int.{ℤ, pos, sub_ℕ, ltb_ℤ}
use homepi_mon.Protocol.Enums.{
  ErrorClass, no_error, auth, rate_limited, timeout, network, schema_changed, unsupported,
  invalid_config, upstream, other_class, ConnectorState, conn_ok, degraded, blocked_auth,
  conn_error, disabled,
}

pub record Policy : Type 0 where
  pub interval : ℕ
  pub min_backoff : ℕ
  pub max_backoff : ℕ
  pub auth_backoff : ℕ
  pub unsupported_backoff : ℕ
  pub fast_retries : ℕ

unfoldable pub default_policy : ℕ → Policy
default_policy interval = record {
  interval = if interval == 0 then minute else interval;
  min_backoff = 5 * second;
  max_backoff = 10 * minute;
  auth_backoff = 15 * minute;
  unsupported_backoff = hour;
  fast_retries = 1;
}

-- The shift is capped at 20.
unfoldable pub shift_of : ℕ → ℕ
shift_of failures = min ((if failures == 0 then 1 else failures) - 1) 20

abbrev pub capped : Policy → ℕ → ℕ
capped p d = if ltb p.max_backoff d || d == 0 then p.max_backoff else d

unfoldable pub exponential : Policy → ℕ → ℕ
exponential p failures = capped p (p.min_backoff * 2 ^ shift_of failures)

abbrev pub fast_or_exponential : Policy → ℕ → ℕ
fast_or_exponential p failures =
    if leb failures p.fast_retries then p.min_backoff else exponential p failures

-- `time.Duration(n) * time.Second`, which wraps around in int64.
unfoldable pub seconds : ℕ → ℤ
seconds n = let w = n * second % 2 ^ 64 in if ltb max_int64 w then sub_ℕ w (2 ^ 64) else pos w

unfoldable pub delay : Policy → ErrorClass → ℕ → ℕ → ℤ
delay p no_error failures retry_after = pos p.interval
delay p auth failures retry_after = pos p.auth_backoff
delay p unsupported failures retry_after = pos p.unsupported_backoff
delay p invalid_config failures retry_after = pos p.unsupported_backoff
delay p rate_limited failures retry_after =
    if ltb 0 retry_after then seconds retry_after else pos (exponential p failures)
delay p timeout failures retry_after = pos (fast_or_exponential p failures)
delay p network failures retry_after = pos (fast_or_exponential p failures)
delay p upstream failures retry_after = pos (fast_or_exponential p failures)
delay p schema_changed failures retry_after = pos p.max_backoff
delay p (other_class _) failures retry_after = pos (exponential p failures)

-- `NextDelay`: a Retry-After bounds the jittered delay from below.
unfoldable pub next_delay : (ℤ → ℤ) → Policy → ErrorClass → ℕ → ℕ → ℤ
next_delay jitter p class failures retry_after =
    let d = jitter (delay p class failures retry_after) in
    let floor = seconds retry_after in
    if ltb 0 retry_after then (if ltb_ℤ d floor then floor else d) else d

unfoldable pub blocked : ErrorClass → Bool
blocked auth = true
blocked invalid_config = true
blocked _ = false

abbrev pub class_state : ErrorClass → ConnectorState
class_state no_error = conn_ok
class_state auth = blocked_auth
class_state rate_limited = degraded
class_state timeout = degraded
class_state network = degraded
class_state _ = conn_error

unfoldable pub state_for : ErrorClass → Bool → ConnectorState
state_for class enabled = if enabled then class_state class else disabled
