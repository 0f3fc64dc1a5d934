-- ===== src/ConfigTx/Apply/Undo.antt =====
-- internal/configtx/apply.go: the rollback of a failed `Apply`.
use homepi_mon.Common.{
  ℕ, suc, ◌+◌, String, false, not, List, [], ◌∷◌, Option, none, some, ◌==◌, length, ok, err,
  if◌then◌else◌,
}
use homepi_mon.Files.{Saved, atomic_write}
use homepi_mon.ConfigTx.{rolling_back}
use homepi_mon.ConfigTx.Keyring.{delete_refs}
use homepi_mon.ConfigTx.Apply.{
  World, Outcomes, rollback_failed, apply_error, done, failed, rolled_back, restore_failed,
  restored_config, remove_failed, removed_config, previous_restart_failed, previous_restarted,
  deleted_candidates, reason, ApplyResult, Service, Applied, log,
}
use homepi_mon.ConfigTx.Apply.Steps.{Failure, restart_service, restart_ok}

-- `rollback`: what a failure has left of the configuration file, the service and the candidates is
-- undone.
pub record Undone : Type 0 where
  pub world : World
  pub result : ApplyResult
  pub errors : ℕ

unfoldable pub restored : Saved → Undone → Undone
restored (ok u, disk) n = record n {
  world = record n.world { disk = disk };
  result = log rolling_back done restored_config n.result;
}
restored (err e, disk) n = record n {
  world = record n.world { disk = disk };
  result = log rolling_back failed restore_failed n.result;
  errors = suc n.errors;
}

-- The file as it was before is written back, or the new file is removed.
unfoldable pub restore_config : Outcomes → Option String → Undone → Undone
unfolding atomic_write restored
restore_config o (some bytes) n = restored (atomic_write o.restoring bytes n.world.disk) n
restore_config o none n =
    if o.remove_fails
    then record n { result = log rolling_back failed remove_failed n.result; errors = suc n.errors }
    else record n {
      world = record n.world { disk = record n.world.disk { file = none } };
      result = log rolling_back done removed_config n.result;
    }

unfoldable pub restart_previous : Outcomes → Undone → Undone
unfolding restart_service
restart_previous o n =
    let w = restart_service o.restart_again n.world in
    if not (n.errors == 0)
    then n
    else if restart_ok o.restart_again
    then record n { world = w; result = log rolling_back done previous_restarted n.result }
    else record n {
      world = w;
      result = log rolling_back failed previous_restart_failed n.result;
      errors = suc n.errors;
    }

abbrev log_deleted : List String → ApplyResult → ApplyResult
log_deleted [] r = r
log_deleted (x ∷ xs) r = log rolling_back done (deleted_candidates (length (x ∷ xs))) r

unfoldable pub delete_candidates : Outcomes → List String → Undone → Undone
unfolding delete_refs
delete_candidates o refs n =
    let (secrets, errors) = delete_refs o.store refs n.world.secrets in
    record {
      world = record n.world { secrets = secrets };
      result = log_deleted refs n.result;
      errors = n.errors + errors;
    }

abbrev pub begun : Failure → Undone
begun f = record { world = f.world; result = f.result; errors = 0 }

unfoldable pub config_undone : Outcomes → Option String → Failure → Undone → Undone
unfolding restore_config
config_undone o before f n = if f.config_persisted then restore_config o before n else n

unfoldable pub service_undone : Outcomes → Failure → Undone → Undone
unfolding restart_previous
service_undone o f n = if f.restart_attempted then restart_previous o n else n

unfoldable pub undo : Outcomes → Option String → Failure → Undone
unfolding config_undone service_undone delete_candidates
undo o before f =
    delete_candidates o f.committed (service_undone o f (config_undone o before f (begun f)))

unfoldable pub roll_back : Outcomes → ℕ → Option String → Service → Failure → Applied
unfolding undo
roll_back o now before s f =
    let n = undo o before f in
    record {
      service = record s {
        last_apply = some (record { at = now; status = rolled_back; summary = reason f.reason });
      };
      world = n.world;
      result = log f.step rolled_back (reason f.reason) (record n.result { healthy = false });
      error = some (if n.errors == 0 then apply_error f.step f.reason else rollback_failed);
    }
