-- ===== src/ConfigTx/Apply/Commit.antt =====
-- What an `Apply` that succeeds leaves in the file, in the secret store and in the service.
use homepi_mon.Common.{
  ℕ, String, ◌≡◌, refl, sym, subst, true, false, not, ◌&&◌, ◌||◌, [], none, some, is_some, str_eq,
  Result, ok, err, ◌>>=◌, ◌==◌, inl, inr, Bool-cases, Option-cases, arith, if◌then◌else◌, text_mem,
}
use homepi_mon.Common.Table.{lookup}
use homepi_mon.Config.{with_schema}
use homepi_mon.Config.Saving.{save-Holds}
use homepi_mon.ConfigTx.{Env, DraftError, validating, revision_of}
use homepi_mon.ConfigTx.Draft.{Draft}
use homepi_mon.ConfigTx.Keyring.{Committed, commit_secrets, collect_refs}
use homepi_mon.ConfigTx.Keyring.Pruning.{
  staged_or, Commits, commit_secrets-Commits, prune_secrets-used, lookup-prune_secrets,
}
use homepi_mon.ConfigTx.Apply.{
  World, Outcomes, ApplyOptions, ApplyResult, Service, Applied, log, empty_result, done,
  draft_validated,
}
use homepi_mon.ConfigTx.Apply.Steps.{
  Progress, Failure, persist_secrets, persist_config, restart_step, health_step, apply_steps,
  restart_service, commit_result, saved_result,
}
use homepi_mon.ConfigTx.Apply.Undo.{roll_back}
use homepi_mon.ConfigTx.Apply.Run.{
  finish_steps, finish_apply, check_draft, apply_if, apply_checked, apply, used_refs,
  prune_orphan_secrets,
}

abbrev IfOk : (Progress → Type 0) → Result Failure Progress → Type 0
IfOk P (ok p) = P p
IfOk P (err f) = Unit

IfOk-bind :
    {P : Progress → Type 0} (Q : Progress → Type 0) (r : Result Failure Progress)
    (next : Progress → Result Failure Progress)
    → IfOk P r
    → ((p : Progress) → P p → IfOk Q (next p))
    → IfOk Q (r >>= next)
IfOk-bind Q (ok p) next h k = k p h
IfOk-bind Q (err f) next h k = tt

-- Every candidate is in the store, and the service has not been touched.
abbrev IsStored : Draft → World → Progress → Type 0
unfolding lookup
IsStored d w p =
    ((k : String) → lookup k p.world.secrets ≡ staged_or (lookup k d.overlay) (lookup k w.secrets))
    × (p.world.running ≡ w.running)

-- The file holds the configuration too.
abbrev IsSaved : Env → Draft → World → Progress → Type 0
unfolding IsStored with_schema
IsSaved env d w p =
    IsStored d w p
    × (p.world.disk.file ≡ env.json.encode (with_schema d.pending))
    × (is_some p.world.disk.file ≡ true)

-- The service has loaded it, if there is a restart.
abbrev IsLive : Env → ApplyOptions → Draft → World → Progress → Type 0
unfolding lookup with_schema
IsLive env opts d w p =
    ((k : String) → lookup k p.world.secrets ≡ staged_or (lookup k d.overlay) (lookup k w.secrets))
    × (p.world.disk.file ≡ env.json.encode (with_schema d.pending))
    × (is_some p.world.disk.file ≡ true)
    × (p.world.running ≡ (if opts.restarts then some p.world.disk.file else w.running))

commit_result-IsStored :
    (d : Draft) (w : World) (r : ApplyResult) (c : Committed)
    → (c.error ≡ none
        → (k : String) → lookup k c.secrets ≡ staged_or (lookup k d.overlay) (lookup k w.secrets))
    → IfOk (IsStored d w) (commit_result w r d c)
unfolding commit_result IsStored
commit_result-IsStored d w r c h = elim (Option-cases c.error) [
  | inl e ↦ ground (arith, e, h e)
  | inr (x, e) ↦ ground (arith, e)
]

persist_secrets-IsStored :
    (o : Outcomes) (d : Draft) (w : World) (r : ApplyResult)
    → IfOk (IsStored d w) (persist_secrets o d w r)
unfolding persist_secrets Commits
persist_secrets-IsStored o d w r =
    commit_result-IsStored d w r (commit_secrets o.store d.overlay w.secrets [])
      (λ e k. (commit_secrets-Commits o.store d.overlay w.secrets [] k e).0)

persist_config-IsSaved :
    (env : Env) (o : Outcomes) (d : Draft) (w : World) (p : Progress)
    → IsStored d w p
    → IfOk (IsSaved env d w) (persist_config env o d p)
unfolding persist_config saved_result IsSaved
persist_config-IsSaved env o d w p h =
    let saved = save-Holds env.json o.saving env.config_path d.pending p.world.disk in
    ground (arith, h, saved)

restart_step-IsLive :
    (env : Env) (o : Outcomes) (opts : ApplyOptions) (d : Draft) (w : World) (p : Progress)
    → IsSaved env d w p
    → IfOk (IsLive env opts d w) (restart_step o opts p)
unfolding restart_step restart_service IsSaved IsStored IsLive
restart_step-IsLive env o opts d w p h = ground (arith, h)

health_step-IsLive :
    (env : Env) (o : Outcomes) (opts : ApplyOptions) (d : Draft) (w : World) (p : Progress)
    → IsLive env opts d w p
    → IfOk (IsLive env opts d w) (health_step o opts p)
unfolding health_step IsLive
health_step-IsLive env o opts d w p h = ground (arith, h)

apply_steps-IsLive :
    (env : Env) (o : Outcomes) (opts : ApplyOptions) (d : Draft) (w : World) (r : ApplyResult)
    → IfOk (IsLive env opts d w) (apply_steps env o opts d w r)
unfolding apply_steps
apply_steps-IsLive env o opts d w r =
    IfOk-bind _ (persist_secrets o d w r) _ (persist_secrets-IsStored o d w r) (λ p h.
      IfOk-bind _ (persist_config env o d p) _ (persist_config-IsSaved env o d w p h) (λ q k.
        IfOk-bind _ (restart_step o opts q) _ (restart_step-IsLive env o opts d w q k)
          (health_step-IsLive env o opts d w)))

-- The file holds the configuration of the draft. The references in use have the candidates, or else
-- what they had before, and the service has loaded the file, if there was a restart.
abbrev pub IsCommitted : Env → ApplyOptions → Draft → World → World → Type 0
unfolding lookup with_schema used_refs
IsCommitted env opts d w w' =
    (w'.disk.file ≡ env.json.encode (with_schema d.pending))
    × (is_some w'.disk.file ≡ true)
    × ((k : String)
        → text_mem k (used_refs opts d) ≡ true
        → lookup k w'.secrets ≡ staged_or (lookup k d.overlay) (lookup k w.secrets))
    × (w'.running ≡ (if opts.restarts then some w'.disk.file else w.running))

-- The entries of the secret store when no deletion fails.
abbrev pub IsPruned : ApplyOptions → Draft → World → World → Type 0
unfolding lookup used_refs collect_refs
IsPruned opts d w w' =
    (k : String)
    → lookup k w'.secrets ≡ (
        if text_mem k (collect_refs d.base) && not (text_mem k (used_refs opts d))
        then none
        else staged_or (lookup k d.overlay) (lookup k w.secrets))

finish_apply-IsCommitted :
    (env : Env) (o : Outcomes) (opts : ApplyOptions) (now : ℕ) (d : Draft) (s : Service) (w : World)
    (p : Progress)
    → IsLive env opts d w p
    → IsCommitted env opts d w (finish_apply env o opts now d s p).world
unfolding finish_apply prune_orphan_secrets IsLive IsCommitted
finish_apply-IsCommitted env o opts now d s w p (stored, file, there, running) =
    let prune =
      prune_secrets-used o.store (used_refs opts d) (collect_refs d.base) p.world.secrets [] in
    elim (Bool-cases o.unreadable_after) [
      | inl e ↦ (
        ground (arith, file, e),
        ground (arith, there, e),
        λ k u. ground (arith, e, prune k u, stored k),
        ground (arith, running, e),
      )
      | inr e ↦ (
        ground (arith, file, e),
        ground (arith, there, e),
        λ k u. ground (arith, e, prune k u, stored k),
        ground (arith, running, e),
      )
    ]

finish_apply-IsPruned :
    (env : Env) (o : Outcomes) (opts : ApplyOptions) (now : ℕ) (d : Draft) (s : Service) (w : World)
    (p : Progress)
    → ((ref : String) → o.store.delete_fails ref ≡ false)
    → IsLive env opts d w p
    → IsPruned opts d w (finish_apply env o opts now d s p).world
unfolding finish_apply prune_orphan_secrets IsLive IsPruned
finish_apply-IsPruned env o opts now d s w p never (stored, file, there, running) k =
    let pruned =
      lookup-prune_secrets o.store (used_refs opts d) (collect_refs d.base) p.world.secrets [] k
        never in
    ground (arith, pruned, stored k)

-- An `Apply` without an error has come to its last step.
abbrev Finishes : Env → Outcomes → ApplyOptions → ℕ → Draft → Service → World → Applied → Type 0
unfolding finish_apply
Finishes env o opts now d s w a =
    (p : Progress) × (IsLive env opts d w p × (a ≡ finish_apply env o opts now d s p))

finish_steps-Finishes :
    (env : Env) (o : Outcomes) (opts : ApplyOptions) (now : ℕ) (d : Draft) (s : Service) (w : World)
    (r : Result Failure Progress)
    → IfOk (IsLive env opts d w) r
    → (finish_steps env o opts now d s w r).error ≡ none
    → Finishes env o opts now d s w (finish_steps env o opts now d s w r)
unfolding finish_steps roll_back Finishes
finish_steps-Finishes env o opts now d s w (ok p) h e = (p, (h, refl))
finish_steps-Finishes env o opts now d s w (err f) h e = absurd (ground (arith, e))

apply_if-Finishes :
    (env : Env) (o : Outcomes) (opts : ApplyOptions) (now : ℕ) (d : Draft) (s : Service) (w : World)
    (r : Result DraftError (Unit {0}))
    → (apply_if env o opts now d s w r).error ≡ none
    → Finishes env o opts now d s w (apply_if env o opts now d s w r)
unfolding apply_if apply_checked
apply_if-Finishes env o opts now d s w (err x) e = absurd (ground (arith, e))
apply_if-Finishes env o opts now d s w (ok u) e =
    let r = log validating done draft_validated (empty_result d.revision now) in
    let ran =
      finish_steps-Finishes env o opts now d s w (apply_steps env o opts d w r)
        (apply_steps-IsLive env o opts d w r) in
    elim (Bool-cases (o.unreadable_before || o.closed)) [
      | inl a ↦ absurd (ground (arith, e, a))
      | inr a ↦ ground (arith, e, a, ran)
    ]

apply-Finishes :
    (env : Env) (o : Outcomes) (opts : ApplyOptions) (now : ℕ) (d : Draft) (s : Service) (w : World)
    → (apply env o opts now d s w).error ≡ none
    → Finishes env o opts now d s w (apply env o opts now d s w)
unfolding apply
apply-Finishes env o opts now d s w e =
    let checked = apply_if-Finishes env o opts now d s w (check_draft env opts d) in
    elim (Bool-cases (
      not (d.owner == s.address)
      || o.unreadable
      || not (str_eq d.revision (revision_of env w.disk.file)))) [
        | inl a ↦ absurd (ground (arith, e, a))
        | inr a ↦ ground (arith, e, a, checked)
      ]

-- An `Apply` without an error leaves in the file the text of the draft's configuration, and under
-- every reference that the configuration, the candidates or the caller's list name the candidate, if
-- there is one, or else the entry of before; if there was a restart, the service has loaded that file.
pub apply-IsCommitted :
    (env : Env) (o : Outcomes) (opts : ApplyOptions) (now : ℕ) (d : Draft) (s : Service) (w : World)
    → (apply env o opts now d s w).error ≡ none
    → IsCommitted env opts d w (apply env o opts now d s w).world
unfolding Finishes
apply-IsCommitted env o opts now d s w e =
    let (p, (live, same)) = apply-Finishes env o opts now d s w e in
    subst (λ a. IsCommitted env opts d w a.world) (sym same)
      (finish_apply-IsCommitted env o opts now d s w p live)

-- An `Apply` without an error, in which the store refuses no deletion, takes out of the store exactly
-- the references of the old configuration that are no longer in use, and changes no other entry but
-- for the candidates.
pub apply-IsPruned :
    (env : Env) (o : Outcomes) (opts : ApplyOptions) (now : ℕ) (d : Draft) (s : Service) (w : World)
    → ((ref : String) → o.store.delete_fails ref ≡ false)
    → (apply env o opts now d s w).error ≡ none
    → IsPruned opts d w (apply env o opts now d s w).world
unfolding Finishes
apply-IsPruned env o opts now d s w never e =
    let (p, (live, same)) = apply-Finishes env o opts now d s w e in
    subst (λ a. IsPruned opts d w a.world) (sym same)
      (finish_apply-IsPruned env o opts now d s w p never live)
