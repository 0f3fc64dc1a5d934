-- ===== src/Scheduler/Tests.antt =====
-- Waits and rounds of a task of internal/scheduler.
use homepi_mon.Common.{◌≡◌, ◌*◌, refl, true, ℕ, List, ◌∷◌, [], arith}
use homepi_mon.Common.Int.{pos, ltb_ℤ, ◌≤ℤ◌}
use homepi_mon.Common.Time.{second, minute}
use homepi_mon.Protocol.Enums.{no_error, network, rate_limited}
use homepi_mon.Scheduler.Policy.{delay, seconds, default_policy, next_delay}
use homepi_mon.Scheduler.Task.{TaskInfo, CollectionResult}
use homepi_mon.Scheduler.Backoff.{next_delay_bound}

abbrev task : TaskInfo
task = record { connector_id = "api"; provider = "api"; policy = default_policy minute }

abbrev refused : CollectionResult
refused = record { class = network; retry_after = 0; message = "refused" }

abbrev collected : CollectionResult
collected = record { class = no_error; retry_after = 0; message = "" }

next_delay_bound_example :
    pos (120 * second) ≤ℤ next_delay (λ d. d) (default_policy minute) rate_limited 1 120
next_delay_bound_example =
    next_delay_bound (λ d. d) (default_policy minute) rate_limited 1 120 (omega arith) (omega arith)

-- A Retry-After that int64 nanoseconds do not hold is no wait at all.
wrapped :
    ltb_ℤ (next_delay (λ d. d) (default_policy minute) rate_limited 1 9_223_372_037) (pos 0) ≡ true
unfolding next_delay delay seconds
wrapped = refl

abbrev rounds : List (ℕ × CollectionResult)
rounds =
    (70 * second, refused)
    ∷ (65 * second, refused)
    ∷ (5 * second, collected)
    ∷ (2 * second, refused)
    ∷ []
