-- ===== src/ConfigTx/Apply/Steps.antt =====
-- internal/configtx/apply.go: the steps of `Apply` that a rollback can undo.
use homepi_mon.Common.{
  String, Bool, true, false, not, List, [], ◌∷◌, ◌++◌, none, some, length, Result, ok, err, ◌>>=◌,
  if◌then◌else◌,
}
use homepi_mon.Common.Table.{Table}
use homepi_mon.Files.{Saved}
use homepi_mon.Config.{save}
use homepi_mon.ConfigTx.{Env, ApplyStep, persisting, restarting, verifying}
use homepi_mon.ConfigTx.Draft.{Draft}
use homepi_mon.ConfigTx.Diff.{
  DiffEntry, DiffOp, added, removed, modified, has_op, index_providers, changes_of, removals_of,
}
use homepi_mon.ConfigTx.Keyring.{
  RestartOutcome, restarted, kept, stopped, Committed, commit_secrets,
}
use homepi_mon.ConfigTx.Apply.{
  World, Outcomes, Reason, restart_failed, not_healthy, candidate, not_saved, done, wrote_config,
  restart_signalled, health_passed, committed_secrets, ApplyResult, ApplyOptions, log,
}

-- `summariseDiff`: the changes of the providers, in any order.
unfoldable pub summarise_diff : Draft → List DiffEntry
unfolding index_providers changes_of removals_of
summarise_diff d =
    let before = index_providers d.base.providers in
    let after = index_providers d.pending.providers in
    changes_of before after ++ removals_of after before

unfoldable pub ids_of : DiffOp → List DiffEntry → List String
unfolding has_op
ids_of op [] = []
ids_of op (e ∷ es) = let rest = ids_of op es in if has_op op e then e.id ∷ rest else rest

unfoldable pub fields_of : List DiffEntry → Table (List String)
unfolding has_op
fields_of [] = []
fields_of (e ∷ es) =
    let rest = fields_of es in if has_op modified e then (e.id, e.fields) ∷ rest else rest

abbrev summarised : List DiffEntry → ApplyResult → ApplyResult
unfolding ids_of fields_of
summarised changes r = record r {
  added_providers = ids_of added changes;
  removed_providers = ids_of removed changes;
  modified_fields = fields_of changes;
}

pub record Progress : Type 0 where
  pub world : World
  pub result : ApplyResult
  pub committed : List String

-- A failure that is rolled back: `rollbackState` with what has been done so far.
pub record Failure : Type 0 where
  pub world : World
  pub result : ApplyResult
  pub committed : List String
  pub config_persisted : Bool
  pub restart_attempted : Bool
  pub step : ApplyStep
  pub reason : Reason

abbrev persist_failure : World → ApplyResult → List String → Reason → Failure
persist_failure w r refs why = record {
  world = w;
  result = r;
  committed = refs;
  config_persisted = false;
  restart_attempted = false;
  step = persisting;
  reason = why;
}

abbrev log_committed : Table String → ApplyResult → ApplyResult
log_committed [] r = r
log_committed (x ∷ xs) r = log persisting done (committed_secrets (length (x ∷ xs))) r

unfoldable pub commit_result : World → ApplyResult → Draft → Committed → Result Failure Progress
commit_result w r d c =
    let w' = record w { secrets = c.secrets } in
    elim c.error [
      | some e ↦ err (persist_failure w' r c.refs (candidate e))
      | none ↦ ok (record { world = w'; result = log_committed d.overlay r; committed = c.refs })
    ]

-- Step 2: every candidate of the overlay goes to the store.
unfoldable pub persist_secrets : Outcomes → Draft → World → ApplyResult → Result Failure Progress
unfolding commit_secrets commit_result
persist_secrets o d w r = commit_result w r d (commit_secrets o.store d.overlay w.secrets [])

unfoldable pub saved_result : Draft → Progress → Saved → Result Failure Progress
unfolding summarise_diff ids_of fields_of
saved_result d p (err e, disk) =
    err (persist_failure (record p.world { disk = disk }) p.result p.committed (not_saved e))
saved_result d p (ok u, disk) = ok (record p {
  world = record p.world { disk = disk };
  result = summarised (summarise_diff d) (log persisting done wrote_config p.result);
})

-- Step 3: the configuration is saved.
unfoldable pub persist_config : Env → Outcomes → Draft → Progress → Result Failure Progress
unfolding saved_result save summarise_diff ids_of fields_of
persist_config env o d p =
    saved_result d p (save env.json o.saving env.config_path d.pending p.world.disk)

-- What a restart leaves of the service, and whether it succeeded.
unfoldable pub restart_service : RestartOutcome → World → World
restart_service restarted w = record w { running = some w.disk.file }
restart_service kept w = w
restart_service stopped w = record w { running = none }

abbrev pub restart_ok : RestartOutcome → Bool
restart_ok restarted = true
restart_ok kept = false
restart_ok stopped = false

-- Step 4.
unfoldable pub restart_step : Outcomes → ApplyOptions → Progress → Result Failure Progress
unfolding restart_service
restart_step o opts p =
    let w = restart_service o.restart p.world in
    if not opts.restarts
    then ok p
    else if restart_ok o.restart
    then ok (record p {
      world = w;
      result = log restarting done restart_signalled (record p.result { service_restarted = true });
    })
    else err (record {
      world = w;
      result = p.result;
      committed = p.committed;
      config_persisted = true;
      restart_attempted = true;
      step = restarting;
      reason = restart_failed;
    })

-- Step 5.
unfoldable pub health_step : Outcomes → ApplyOptions → Progress → Result Failure Progress
health_step o opts p =
    if not opts.checks_health
    then ok p
    else if not o.unhealthy
    then ok (record p {
      result = log verifying done health_passed (record p.result { healthy = true });
    })
    else err (record {
      world = p.world;
      result = p.result;
      committed = p.committed;
      config_persisted = true;
      restart_attempted = opts.restarts;
      step = verifying;
      reason = not_healthy;
    })

-- Steps 2 to 5.
unfoldable pub apply_steps :
    Env → Outcomes → ApplyOptions → Draft → World → ApplyResult → Result Failure Progress
unfolding persist_secrets persist_config restart_step health_step
apply_steps env o opts d w r = do
  p ← persist_secrets o d w r
  q ← persist_config env o d p
  s ← restart_step o opts q
  health_step o opts s
