-- ===== src/ConfigTx/Apply/Rollback.antt =====
-- A failed `Apply` that is rolled back leaves the outside as it was.
use homepi_mon.Common.{
  ℕ, String, ◌≡◌, ◌≢◌, ◌⊎◌, refl, not, ◌||◌, Option, none, some, str_eq, Result, ok, err, ◌==◌, inl,
  inr, Bool-cases, arith,
}
use homepi_mon.Common.Table.{lookup}
use homepi_mon.Files.{Saved, atomic_write}
use homepi_mon.Files.Atomic.{IsWritten, atomic_write-IsWritten}
use homepi_mon.ConfigTx.{Env, DraftError, ApplyStep, validating, finalising, revision_of}
use homepi_mon.ConfigTx.Draft.{Draft}
use homepi_mon.ConfigTx.Keyring.Candidates.{Hides, lookup-delete_refs}
use homepi_mon.ConfigTx.Apply.{
  World, Outcomes, ApplyOptions, Service, Reason, apply_error, log, empty_result, done,
  draft_validated,
}
use homepi_mon.ConfigTx.Apply.Steps.{Progress, Failure, apply_steps, restart_service}
use homepi_mon.ConfigTx.Apply.Undo.{
  Undone, roll_back, undo, delete_candidates, restore_config, restart_previous, restored, begun,
  config_undone, service_undone,
}
use homepi_mon.ConfigTx.Apply.Undoing.{IsUndoable, Reaches, Persisting, apply_steps-Reaches}
use homepi_mon.ConfigTx.Apply.Run.{
  finish_apply, check_draft, finish_steps, apply_if, apply_checked, apply,
}

-- The file is as before, and so is every entry of the store; the service has not been touched, or has
-- loaded the file as it was before.
abbrev pub IsRestored : World → World → Type 0
unfolding lookup
IsRestored w w' =
    (w'.disk.file ≡ w.disk.file)
    × ((ref : String) → lookup ref w'.secrets ≡ lookup ref w.secrets)
    × ((w'.running ≡ w.running) ⊎ (w'.running ≡ some w.disk.file))

-- No error, and the file is as before.
abbrev IsConfigBack : Option String → Undone → Undone → Type 0
IsConfigBack before n m =
    (m.world.secrets ≡ n.world.secrets)
    × (m.world.running ≡ n.world.running)
    × (m.errors ≡ 0 → m.world.disk.file ≡ before)

restored-IsConfigBack :
    (bytes : String) (n : Undone) (saved : Saved)
    → IsWritten bytes n.world.disk saved
    → IsConfigBack (some bytes) n (restored saved n)
unfolding restored
restored-IsConfigBack bytes n (ok u, disk) h = ground (arith, h)
restored-IsConfigBack bytes n (err e, disk) h = ground arith

restore_config-IsConfigBack :
    (o : Outcomes) (before : Option String) (n : Undone)
    → IsConfigBack before n (restore_config o before n)
unfolding restore_config
restore_config-IsConfigBack o (some bytes) n =
    restored-IsConfigBack bytes n (atomic_write o.restoring bytes n.world.disk)
      (atomic_write-IsWritten o.restoring bytes n.world.disk)
restore_config-IsConfigBack o none n = ground arith

config_undone-IsConfigBack :
    (o : Outcomes) (w : World) (f : Failure)
    → IsUndoable w f
    → IsConfigBack w.disk.file (begun f) (config_undone o w.disk.file f (begun f))
unfolding config_undone
config_undone-IsConfigBack o w f (h, file, running, order) =
    let back = restore_config-IsConfigBack o w.disk.file (begun f) in
    elim (Bool-cases f.config_persisted) [
      | inl e ↦ ground (arith, back, e)
      | inr e ↦ ground (arith, file e, e)
    ]

-- What the undoing of the service leaves, after that of the file.
service_undone-world :
    (o : Outcomes) (w : World) (f : Failure) (n : Undone)
    → IsUndoable w f
    → IsConfigBack w.disk.file (begun f) n
    → (service_undone o f n).errors ≡ 0
    → let v = (service_undone o f n).world in
      (v.disk.file ≡ w.disk.file)
      × (v.secrets ≡ f.world.secrets)
      × ((v.running ≡ w.running) ⊎ (v.running ≡ some w.disk.file))
unfolding service_undone restart_previous restart_service
service_undone-world o w f n (h, file, running, order) (secrets, same, back) e =
    elim (Bool-cases f.restart_attempted) [
      | inl a ↦ ground (arith, back, secrets, same, e, a)
      | inr a ↦ ground (arith, back, secrets, same, e, a, running a)
    ]

undo-IsRestored :
    (o : Outcomes) (w : World) (f : Failure)
    → IsUndoable w f
    → (undo o w.disk.file f).errors ≡ 0
    → IsRestored w (undo o w.disk.file f).world
unfolding undo delete_candidates IsRestored Hides
undo-IsRestored o w f h e =
    let n = config_undone o w.disk.file f (begun f) in
    let m = service_undone o f n in
    let (file, secrets, running) =
      service_undone-world o w f n h (config_undone-IsConfigBack o w f h) (omega (arith, e)) in
    (
      file,
      λ k. ground (
        arith,
        h.0 k,
        secrets,
        lookup-delete_refs o.store f.committed m.world.secrets k (omega (arith, e)),
      ),
      running,
    )

-- `Apply` after its checks.
finish_steps-IsRestored :
    (env : Env) (o : Outcomes) (opts : ApplyOptions) (now : ℕ) (d : Draft) (s : Service) (w : World)
    (r : Result Failure Progress) (step : ApplyStep) (why : Reason)
    → Reaches w (Persisting opts.restarts w) r
    → (finish_steps env o opts now d s w r).error ≡ some (apply_error step why)
    → step ≢ finalising
    → IsRestored w (finish_steps env o opts now d s w r).world
unfolding finish_steps finish_apply roll_back
finish_steps-IsRestored env o opts now d s w (ok p) step why h e not_last =
    absurd (not_last (ground (arith, e)))
finish_steps-IsRestored env o opts now d s w (err f) step why h e not_last =
    undo-IsRestored o w f h (ground (arith, e))

IsRestored-refl : (w : World) → IsRestored w w
unfolding IsRestored
IsRestored-refl w = (refl, λ k. refl, inl refl)

apply_checked-IsRestored :
    (env : Env) (o : Outcomes) (opts : ApplyOptions) (now : ℕ) (d : Draft) (s : Service) (w : World)
    (step : ApplyStep) (why : Reason)
    → (apply_checked env o opts now d s w).error ≡ some (apply_error step why)
    → step ≢ finalising
    → IsRestored w (apply_checked env o opts now d s w).world
unfolding apply_checked
apply_checked-IsRestored env o opts now d s w step why e not_last =
    let r = log validating done draft_validated (empty_result d.revision now) in
    let same = IsRestored-refl w in
    let ran =
      finish_steps-IsRestored env o opts now d s w (apply_steps env o opts d w r) step why
        (apply_steps-Reaches env o opts d w r) in
    elim (Bool-cases (o.unreadable_before || o.closed)) [
      | inl a ↦ ground (arith, same)
      | inr a ↦ ground (arith, ran, e)
    ]

apply_if-IsRestored :
    (env : Env) (o : Outcomes) (opts : ApplyOptions) (now : ℕ) (d : Draft) (s : Service) (w : World)
    (r : Result DraftError (Unit {0})) (step : ApplyStep) (why : Reason)
    → (apply_if env o opts now d s w r).error ≡ some (apply_error step why)
    → step ≢ finalising
    → IsRestored w (apply_if env o opts now d s w r).world
unfolding apply_if
apply_if-IsRestored env o opts now d s w (ok u) step why e not_last =
    apply_checked-IsRestored env o opts now d s w step why e not_last
apply_if-IsRestored env o opts now d s w (err x) step why e not_last = IsRestored-refl w

-- When `Apply` fails with the error of a step, other than the last that reads the new revision, the
-- file is as before, and so is every entry of the secret store; the service has not been touched or
-- has loaded the file as it was before.
pub apply-IsRestored :
    (env : Env) (o : Outcomes) (opts : ApplyOptions) (now : ℕ) (d : Draft) (s : Service) (w : World)
    (step : ApplyStep) (why : Reason)
    → (apply env o opts now d s w).error ≡ some (apply_error step why)
    → step ≢ finalising
    → IsRestored w (apply env o opts now d s w).world
unfolding apply
apply-IsRestored env o opts now d s w step why e not_last =
    let same = IsRestored-refl w in
    elim (Bool-cases (
      not (d.owner == s.address)
      || o.unreadable
      || not (str_eq d.revision (revision_of env w.disk.file)))) [
        | inl a ↦ ground (arith, same)
        | inr a ↦
            let checked =
              apply_if-IsRestored env o opts now d s w (check_draft env opts d) step why in
            ground (arith, checked, e)
      ]
