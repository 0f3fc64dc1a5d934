-- ===== src/Scheduler/Task.antt =====
-- The loop of `runTask` in internal/scheduler/scheduler.go, one round for each collection; waiting,
-- cancellation and the collection itself are its inputs.
use homepi_mon.Common.{
  ℕ, ◌+◌, ◌-◌, String, Bool, true, List, [], ◌∷◌, Option, none, some, if◌then◌else◌,
}
use homepi_mon.Common.Int.{ℤ, pos, pos_part, neg_part}
use homepi_mon.Protocol.Enums.{ErrorClass, no_error, error_class_same}
use homepi_mon.Protocol.Snapshot.{ConnectorHealth}
use homepi_mon.Scheduler.Policy.{Policy, next_delay, state_for}

-- What `collectTask` reports.
pub record CollectionResult : Type 0 where
  pub class : ErrorClass
  pub retry_after : ℕ
  pub message : String

pub record TaskInfo : Type 0 where
  pub connector_id : String
  pub provider : String
  pub policy : Policy

-- The variables of the loop.
pub record TaskState : Type 0 where
  pub failures : ℕ
  pub last_success_at : Option ℕ

-- `now.Add(d)`; no wait goes back beyond the zero time.
abbrev pub after : ℕ → ℤ → ℕ
after now d = (now + pos_part d) - neg_part d

abbrev pub succeeded : CollectionResult → Bool
succeeded r = error_class_same r.class no_error

unfoldable pub published_health :
    TaskInfo → ErrorClass → String → ℕ → Bool → Option ℕ → Option ℕ → ℕ → ConnectorHealth
published_health t class message failures enabled last_success next_attempt now = record {
  connector_id = t.connector_id;
  provider = t.provider;
  enabled = enabled;
  state = state_for class enabled;
  last_attempt_at = some now;
  last_success_at = last_success;
  next_attempt_at = next_attempt;
  consecutive_failures = pos failures;
  error_class = class;
  message = message;
}

-- One round: the new variables, the health that is published and the wait before the next round.
unfoldable pub task_round :
    TaskInfo → (ℤ → ℤ) → ℕ → CollectionResult → TaskState → TaskState × ConnectorHealth × ℤ
task_round t jitter now r s =
    let failures = if succeeded r then 0 else s.failures + 1 in
    let wait = next_delay jitter t.policy r.class failures r.retry_after in
    let success = if succeeded r then some now else s.last_success_at in
    (
      record { failures = failures; last_success_at = success },
      published_health t r.class r.message failures true success (some (after now wait)) now,
      wait,
    )

abbrev pub fresh_task : TaskState
fresh_task = record { failures = 0; last_success_at = none }

-- The rounds of a task, each with its instant and result, the newest first.
unfoldable pub after_rounds : TaskInfo → (ℤ → ℤ) → List (ℕ × CollectionResult) → TaskState
after_rounds t jitter [] = fresh_task
after_rounds t jitter ((now, r) ∷ rounds) =
    (task_round t jitter now r (after_rounds t jitter rounds)).0
