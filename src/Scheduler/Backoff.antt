-- ===== src/Scheduler/Backoff.antt =====
-- The waits of internal/scheduler: their bounds, and the failures that they count.
use homepi_mon.Common.{
  ℕ, ◌+◌, ◌*◌, ◌^◌, ◌≤◌, ◌<◌, ◌≡◌, refl, List, [], ◌∷◌, Option, none, some, arith, if◌then◌else◌,
}
use native.Mathlib.Nat.{pow-le-pow_right, one-le-pow, mul-le-mul_left}
use homepi_mon.Common.Int.{ℤ, pos, ◌≤ℤ◌}
use homepi_mon.Common.Time.{second, max_int64}
use homepi_mon.Protocol.Enums.{ErrorClass}
use homepi_mon.Scheduler.Policy.{seconds, Policy, shift_of, exponential, next_delay}
use homepi_mon.Scheduler.Task.{CollectionResult, TaskInfo, succeeded, task_round, after_rounds}

shift_of_mono : (m n : ℕ) → m ≤ n → shift_of m ≤ shift_of n
unfolding shift_of
shift_of_mono m n h = ground arith

doubled_mono : (d m n : ℕ) → m ≤ n → d * 2 ^ shift_of m ≤ d * 2 ^ shift_of n
doubled_mono d m n h = mul-le-mul_left d (pow-le-pow_right (omega arith) (shift_of_mono m n h))

doubled-le : (d m : ℕ) → d ≤ d * 2 ^ shift_of m
doubled-le d m = grind (arith, one-le-pow (shift_of m) 2 (omega arith))

-- With a first delay that is positive and at most the cap, the backoff never exceeds the cap, is never
-- below the first delay, and never falls as the failures go on.
pub exponential_bounds :
    (p : Policy) (m n : ℕ)
    → 0 < p.min_backoff
    → p.min_backoff ≤ p.max_backoff
    → m ≤ n
    → (p.min_backoff ≤ exponential p m)
      × (exponential p m ≤ exponential p n)
      × (exponential p n ≤ p.max_backoff)
unfolding exponential
exponential_bounds p m n h k l = ground (
  arith,
  doubled_mono p.min_backoff m n l,
  doubled-le p.min_backoff m,
  doubled-le p.min_backoff n,
)

seconds-exact : (n : ℕ) → n * second ≤ max_int64 → seconds n ≡ pos (n * second)
unfolding seconds
seconds-exact n h = ground arith

-- An upstream's Retry-After is a lower bound of the wait, whatever the jitter, the error and the
-- failures so far, as long as it is a duration that int64 holds.
pub next_delay_bound :
    (jitter : ℤ → ℤ) (p : Policy) (class : ErrorClass) (failures retry : ℕ)
    → 0 < retry
    → retry * second ≤ max_int64
    → pos (retry * second) ≤ℤ next_delay jitter p class failures retry
unfolding next_delay
next_delay_bound jitter p class failures retry h k = ground (arith, seconds-exact retry k)

-- The failures since the last success, counted from the newest round.
abbrev pub failing : List (ℕ × CollectionResult) → ℕ
failing [] = 0
failing ((now, r) ∷ rounds) = let n = failing rounds in if succeeded r then 0 else n + 1

-- The instant of the newest success.
abbrev pub newest_success : List (ℕ × CollectionResult) → Option ℕ
newest_success [] = none
newest_success ((now, r) ∷ rounds) =
    let earlier = newest_success rounds in if succeeded r then some now else earlier

-- After any rounds the task has counted the failures since the newest success, which is the one that
-- it remembers.
pub after_rounds_lem :
    (t : TaskInfo) (jitter : ℤ → ℤ) (rounds : List (ℕ × CollectionResult))
    → ((after_rounds t jitter rounds).failures ≡ failing rounds)
      × ((after_rounds t jitter rounds).last_success_at ≡ newest_success rounds)
unfolding after_rounds task_round
after_rounds_lem t jitter [] = (refl, refl)
after_rounds_lem t jitter ((now, r) ∷ rounds) = ground (arith, after_rounds_lem t jitter rounds)
