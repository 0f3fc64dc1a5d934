-- ===== src/ConfigTx/Apply/Run.antt =====
-- internal/configtx/apply.go: `Apply` from its checks to its end.
use homepi_mon.Common.{
  ℕ, String, not, List, [], ◌∷◌, ◌++◌, none, some, ltb, ◌==◌, str_eq, length, Result, ok, err, ◌>>◌,
  if◌then◌else◌,
}
use homepi_mon.Common.Table.{Table}
use homepi_mon.ConfigTx.{
  Env, DraftError, validating, persisting, finalising, completed, revision_of,
}
use homepi_mon.ConfigTx.Draft.{Draft, check_config, check_shadows}
use homepi_mon.ConfigTx.Draft.Fingerprint.{validate_required_tests}
use homepi_mon.ConfigTx.Keyring.{collect_refs, Pruned, prune_secrets}
use homepi_mon.ConfigTx.Apply.{
  World, Outcomes, unreadable_config, store_unavailable, draft, ApplyFailure, foreign_draft,
  revision_conflict, apply_error, done, warning, Detail, draft_validated, prune_failed,
  pruned_secrets, change_counts, ApplyResult, ApplyOptions, Service, Applied, log, empty_result,
}
use homepi_mon.ConfigTx.Apply.Steps.{Failure, Progress, apply_steps}
use homepi_mon.ConfigTx.Apply.Undo.{roll_back}

abbrev keys {ℓ} : {A : Type ℓ} → Table A → List String
keys [] = []
keys ((key, value) ∷ rest) = key ∷ keys rest

-- The references that a pruning leaves alone.
unfoldable pub used_refs : ApplyOptions → Draft → List String
unfolding collect_refs
used_refs opts d = collect_refs d.pending ++ keys d.overlay ++ opts.keep_secret_refs

-- `pruneOrphanSecrets`.
unfoldable pub prune_orphan_secrets : Outcomes → ApplyOptions → Draft → Table String → Pruned
unfolding used_refs collect_refs prune_secrets
prune_orphan_secrets o opts d secrets =
    prune_secrets o.store (used_refs opts d) (collect_refs d.base) secrets []

abbrev log_pruned : Pruned → ApplyResult → ApplyResult
log_pruned p r =
    if not p.complete
    then log finalising warning prune_failed r
    else if ltb 0 (length p.refs)
    then log finalising done (pruned_secrets (length p.refs)) r
    else r

abbrev counts : ApplyResult → Detail
counts r =
    change_counts (length r.added_providers) (length r.removed_providers) (length r.modified_fields)

-- Step 6: the references that nothing uses any more are pruned, and the new revision is read.
unfoldable pub finish_apply :
    Env → Outcomes → ApplyOptions → ℕ → Draft → Service → Progress → Applied
unfolding prune_orphan_secrets revision_of
finish_apply env o opts now d s p =
    let pruned = prune_orphan_secrets o opts d p.world.secrets in
    let w = record p.world { secrets = pruned.secrets } in
    let r = record (log_pruned pruned p.result) { old_secrets_pruned = pruned.refs } in
    let revision = revision_of env w.disk.file in
    if o.unreadable_after
    then record {
      service = record s { base_revision = "" };
      world = w;
      result = r;
      error = some (apply_error finalising unreadable_config);
    }
    else record {
      service = record s {
        base_revision = revision;
        last_apply = some (record { at = now; status = done; summary = counts r });
      };
      world = w;
      result = log completed done (counts r) (record r { revision = revision });
      error = none;
    }

-- Step 1: the checks of the draft.
unfoldable pub check_draft : Env → ApplyOptions → Draft → Result DraftError (Unit {0})
unfolding check_config check_shadows validate_required_tests
check_draft env opts d = do
  check_config env d.pending
  check_shadows env d.pending
  if opts.require_provider_tests then validate_required_tests env d else ok tt

-- A failure before anything was changed.
abbrev pub refused_with : Service → World → ApplyResult → ApplyFailure → Applied
refused_with s w r f = record { service = s; world = w; result = r; error = some f }

unfoldable pub finish_steps :
    Env → Outcomes → ApplyOptions → ℕ → Draft → Service → World → Result Failure Progress → Applied
unfolding finish_apply roll_back
finish_steps env o opts now d s w (ok p) = finish_apply env o opts now d s p
finish_steps env o opts now d s w (err f) = roll_back o now w.disk.file s f

-- A draft that has been checked.
unfoldable pub apply_checked : Env → Outcomes → ApplyOptions → ℕ → Draft → Service → World → Applied
unfolding apply_steps finish_steps
apply_checked env o opts now d s w =
    let r = log validating done draft_validated (empty_result d.revision now) in
    if o.unreadable_before
    then refused_with s w r (apply_error validating unreadable_config)
    else if o.closed
    then refused_with s w r (apply_error persisting store_unavailable)
    else finish_steps env o opts now d s w (apply_steps env o opts d w r)

unfoldable pub apply_if :
    Env
    → Outcomes
    → ApplyOptions
    → ℕ
    → Draft
    → Service
    → World
    → Result DraftError (Unit {0})
    → Applied
unfolding apply_checked
apply_if env o opts now d s w (err e) =
    refused_with s w (empty_result d.revision now) (apply_error validating (draft e))
apply_if env o opts now d s w (ok u) = apply_checked env o opts now d s w

-- `Apply`, of a draft that is not nil, with a clock that stands at `now`.
unfoldable pub apply : Env → Outcomes → ApplyOptions → ℕ → Draft → Service → World → Applied
unfolding check_draft apply_if revision_of
apply env o opts now d s w =
    if not (d.owner == s.address)
    then refused_with s w (empty_result "" 0) foreign_draft
    else if o.unreadable
    then refused_with s w (empty_result "" 0) (apply_error validating unreadable_config)
    else if not (str_eq d.revision (revision_of env w.disk.file))
    then refused_with s w (empty_result "" 0) revision_conflict
    else apply_if env o opts now d s w (check_draft env opts d)
