-- ===== src/ConfigTx/Apply.antt =====
-- internal/configtx/apply.go: a draft is applied to the configuration file, the secret store and the
-- running service, or rolled back. The failures of the calls to the outside are an argument. Here: what
-- `Apply` works on and returns.
pub mod Steps
pub mod Undo
pub mod Run
pub mod Undoing
pub mod Rollback
pub mod Commit
pub mod Refusal
use homepi_mon.Common.{
  ℕ, zero, suc, String, Bool, true, false, not, ◌&&◌, ◌||◌, List, [], ◌∷◌, ◌++◌, Option, none, some,
  ltb, ◌==◌, str_eq, is_some, map, length, Result, ok, err, ◌>>=◌, ◌>>◌, refuse, if◌then◌else◌,
}
use homepi_mon.Common.Table.{Table, lookup}
use homepi_mon.Files.{Faults, Disk, Saved, SaveError, atomic_write}
use homepi_mon.Config.{Config, save}
use homepi_mon.ConfigTx.{
  Env, DraftError, ApplyStep, validating, persisting, restarting, verifying, rolling_back,
  finalising, completed, revision_of,
}
use homepi_mon.ConfigTx.Draft.{Draft, check_config, check_shadows}
use homepi_mon.ConfigTx.Draft.Fingerprint.{validate_required_tests}
use homepi_mon.ConfigTx.Diff.{
  DiffEntry, DiffOp, added, removed, modified, has_op, index_providers, changes_of, removals_of,
}
use homepi_mon.ConfigTx.Keyring.{
  StoreFaults, RestartOutcome, restarted, kept, stopped, CommitError, Committed, commit_secrets,
  delete_refs, collect_refs, Pruned, prune_secrets,
}

-- The configuration file, the entries of the secret store, and the file as the running service has
-- loaded it, none when no service runs.
pub record World : Type 0 where
  pub disk : Disk
  pub secrets : Table String
  pub running : Option (Option String)

-- Which calls of one `Apply` fail.
pub record Outcomes : Type 0 where
  pub unreadable : Bool  -- the file, for its revision
  pub unreadable_before : Bool  -- the file, for a rollback
  pub unreadable_after : Bool  -- the file, for the new revision
  pub closed : Bool  -- the secret store
  pub store : StoreFaults
  pub saving : Faults
  pub restart : RestartOutcome
  pub unhealthy : Bool
  pub restoring : Faults
  pub remove_fails : Bool
  pub restart_again : RestartOutcome

-- `Reason` of an ApplyError.
pub data Reason : Type 0 where
  unreadable_config store_unavailable restart_failed not_healthy : Reason
  draft : DraftError → Reason
  candidate : CommitError → Reason
  not_saved : SaveError → Reason

pub data ApplyFailure : Type 0 where
  foreign_draft revision_conflict rollback_failed : ApplyFailure
  apply_error : ApplyStep → Reason → ApplyFailure

pub data StepStatus : Type 0 where
  done warning failed rolled_back : StepStatus

-- The texts of the steps, with the numbers they show.
pub data Detail : Type 0 where
  draft_validated wrote_config restart_signalled health_passed prune_failed restore_failed
        restored_config remove_failed removed_config previous_restart_failed previous_restarted :
      Detail
  committed_secrets pruned_secrets deleted_candidates : ℕ → Detail
  change_counts : ℕ → ℕ → ℕ → Detail
  reason : Reason → Detail

pub record StepRecord : Type 0 where
  pub step : ApplyStep
  pub status : StepStatus
  pub detail : Detail

pub record ApplyResult : Type 0 where
  pub revision : String
  pub persisted_at : ℕ
  pub added_providers : List String
  pub removed_providers : List String
  pub modified_fields : Table (List String)
  pub old_secrets_pruned : List String
  pub service_restarted : Bool  -- Restarted
  pub healthy : Bool
  pub step_log : List StepRecord

pub record ApplyOptions : Type 0 where
  pub restarts : Bool  -- Restart != nil
  pub checks_health : Bool  -- HealthCheck != nil
  pub keep_secret_refs : List String
  pub require_provider_tests : Bool

-- `lastApply`.
pub record ApplyRecord : Type 0 where
  pub at : ℕ
  pub status : StepStatus
  pub summary : Detail

pub record Service : Type 0 where
  pub address : ℕ
  pub base_revision : String
  pub last_apply : Option ApplyRecord

-- What `Apply` leaves and returns; the error is none when it succeeds.
pub record Applied : Type 0 where
  pub service : Service
  pub world : World
  pub result : ApplyResult
  pub error : Option ApplyFailure

abbrev pub log : ApplyStep → StepStatus → Detail → ApplyResult → ApplyResult
log step status detail r = record r {
  step_log = r.step_log ++ record { step = step; status = status; detail = detail } ∷ [];
}

abbrev pub empty_result : String → ℕ → ApplyResult
empty_result revision now = record {
  revision = revision;
  persisted_at = now;
  added_providers = [];
  removed_providers = [];
  modified_fields = [];
  old_secrets_pruned = [];
  service_restarted = false;
  healthy = false;
  step_log = [];
}
