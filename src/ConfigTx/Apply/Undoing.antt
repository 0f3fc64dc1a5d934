-- ===== src/ConfigTx/Apply/Undoing.antt =====
-- What the steps of `Apply` have changed when one of them fails, and that the rollback undoes it.
use homepi_mon.Common.{
  String, ◌≡◌, refl, ◌∙◌, Bool, true, false, [], Option, Result, ok, err, ◌>>=◌, inl, inr,
  Option-cases, arith,
}
use homepi_mon.Files.{Saved}
use homepi_mon.Config.{with_schema}
use homepi_mon.Files.Atomic.{Holds}
use homepi_mon.Config.Saving.{save-Holds}
use homepi_mon.ConfigTx.{Env}
use homepi_mon.ConfigTx.Draft.{Draft}
use homepi_mon.ConfigTx.Keyring.{commit_secrets}
use homepi_mon.ConfigTx.Keyring.Candidates.{Hides, commit_secrets-Hides}
use homepi_mon.ConfigTx.Apply.{World, Outcomes, ApplyOptions, ApplyResult}
use homepi_mon.ConfigTx.Apply.Steps.{
  Progress, Failure, persist_secrets, persist_config, restart_step, health_step, apply_steps,
  restart_service, commit_result, saved_result,
}

-- Nothing but the committed candidates has changed in the store, the file only when the
-- configuration was persisted, and the service only when a restart was tried, after that.
abbrev pub IsUndoable : World → Failure → Type 0
IsUndoable w f =
    Hides w.secrets f.world.secrets f.committed
    × (f.config_persisted ≡ false → f.world.disk.file ≡ w.disk.file)
    × (f.restart_attempted ≡ false → f.world.running ≡ w.running)
    × (f.restart_attempted ≡ true → f.config_persisted ≡ true)

abbrev pub Reaches : World → (Progress → Type 0) → Result Failure Progress → Type 0
Reaches w P (ok p) = P p
Reaches w P (err f) = IsUndoable w f

Reaches-bind :
    {P : Progress → Type 0} (Q : Progress → Type 0) (w : World) (r : Result Failure Progress)
    (next : Progress → Result Failure Progress)
    → Reaches w P r
    → ((p : Progress) → P p → Reaches w Q (next p))
    → Reaches w Q (r >>= next)
Reaches-bind Q w (ok p) next h k = k p h
Reaches-bind Q w (err f) next h k = h

abbrev Committing : World → Progress → Type 0
Committing w p =
    Hides w.secrets p.world.secrets p.committed
    × (p.world.disk.file ≡ w.disk.file)
    × (p.world.running ≡ w.running)

abbrev pub Persisting : Bool → World → Progress → Type 0
Persisting restarts w p =
    Hides w.secrets p.world.secrets p.committed × (restarts ≡ false → p.world.running ≡ w.running)

Hides-refl : (w : World) → Hides w.secrets w.secrets []
unfolding Hides
Hides-refl w k = refl

persist_secrets-Reaches :
    (o : Outcomes) (d : Draft) (w : World) (r : ApplyResult)
    → Reaches w (Committing w) (persist_secrets o d w r)
unfolding persist_secrets commit_result
persist_secrets-Reaches o d w r =
    let h = commit_secrets-Hides o.store d.overlay w.secrets w.secrets [] (Hides-refl w) in
    let c = commit_secrets o.store d.overlay w.secrets [] in
    elim (Option-cases c.error) [ inl e ↦ ground (arith, h, e) | inr (x, e) ↦ ground (arith, h, e) ]

saved_result-Reaches :
    (d : Draft) (w : World) (p : Progress) (text : Option String) (saved : Saved)
    → Committing w p
    → Holds text p.world.disk saved
    → Reaches w (Persisting false w) (saved_result d p saved)
unfolding saved_result
saved_result-Reaches d w p text (ok u, disk) (h, f, r) s = (h, λ _. r)
saved_result-Reaches d w p text (err e, disk) (h, f, r) s =
    (h, λ _. s ∙ f, λ _. r, λ x. absurd (ground arith))

persist_config-Reaches :
    (env : Env) (o : Outcomes) (d : Draft) (w : World) (p : Progress)
    → Committing w p
    → Reaches w (Persisting false w) (persist_config env o d p)
unfolding persist_config
persist_config-Reaches env o d w p h =
    saved_result-Reaches d w p (env.json.encode (with_schema d.pending)) _ h
      (save-Holds env.json o.saving env.config_path d.pending p.world.disk)

restart_step-Reaches :
    (o : Outcomes) (opts : ApplyOptions) (w : World) (p : Progress)
    → Persisting false w p
    → Reaches w (Persisting opts.restarts w) (restart_step o opts p)
unfolding restart_step restart_service
restart_step-Reaches o opts w p (h, r) = ground (arith, h, r refl)

health_step-Reaches :
    (o : Outcomes) (opts : ApplyOptions) (w : World) (p : Progress)
    → Persisting opts.restarts w p
    → Reaches w (Persisting opts.restarts w) (health_step o opts p)
unfolding health_step
health_step-Reaches o opts w p (h, r) = ground (arith, h, r)

pub apply_steps-Reaches :
    (env : Env) (o : Outcomes) (opts : ApplyOptions) (d : Draft) (w : World) (r : ApplyResult)
    → Reaches w (Persisting opts.restarts w) (apply_steps env o opts d w r)
unfolding apply_steps
apply_steps-Reaches env o opts d w r =
    Reaches-bind _ w (persist_secrets o d w r) _ (persist_secrets-Reaches o d w r) (λ p h.
      Reaches-bind _ w (persist_config env o d p) _ (persist_config-Reaches env o d w p h) (λ q k.
        Reaches-bind _ w (restart_step o opts q) _ (restart_step-Reaches o opts w q k)
          (health_step-Reaches o opts w)))
