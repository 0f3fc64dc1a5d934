-- ===== src/DisplayDeploy/Deploying.antt =====
-- internal/displaydeploy/deployer.go: what Apply leaves, on each of its branches.
use homepi_mon.Common.{
  String, ◌≡◌, refl, ◌∙◌, ap, true, false, not, ◌||◌, Option, none, some, List, ◌∷◌, codes, str_eq,
  is_some, Result, ok, err, inl, inr, Bool-cases, arith,
}
use homepi_mon.Common.{OnOk, OnOk-bind, ◌+◌, ◌*◌, []}
use homepi_mon.Common.Time.{second}
use homepi_mon.Common.Strconv.{trim_space, codes_eq}
use homepi_mon.DisplayConfig.{safe_host}
use homepi_mon.DisplayDeploy.{
  Env, Manager, Profile, DeployError, Command, rollback_script, apply_script, current_profile,
  not_saved, not_ended,
}
use homepi_mon.DisplayDeploy.Probe.{
  RemoteStatus, run, probe, is_healthy, wait_rounds, wait_fuel, wait_healthy, waited,
}
use homepi_mon.DisplayDeploy.Calls.{
  DeployResult, finished, rolled_back, refused, replace_profile, write_profile, save_profile,
  roll_back, finish_apply, confirm, after_script, after_probe, rendered, prepare_apply, apply,
  failed_steps,
}
use homepi_mon.DisplayDeploy.Keeping.{
  Keeps, keeps_all, keeps-keeps, run-Keeps, probe-Keeps, probe-safe_host, commands-run,
  wait_rounds-Keeps, wait_rounds-is_healthy, found_healthy,
}
use homepi_mon.Files.{Faults, Disk, Saved, attempt, cleanup, end_saving}
use homepi_mon.Files.Atomic.{Holds}

-- The profile is the current one, and the last test was of it.
abbrev pub IsTested : Env → Manager → Profile → Type 0
IsTested env m p =
    (current_profile env m ≡ ok p)
    × (str_eq m.tested_hash "" ≡ false)
    × (str_eq m.tested_hash (env.marshal p) ≡ true)

-- What Apply leaves after each kind of result.
unfoldable pub IsDeployed : Env → Manager → Manager × DeployResult → Type 0
IsDeployed env m (m', finished status steps remote) =
    (p : Profile) × IsTested env m p
    × (is_healthy (probe env p.ssh_host m).1.0 remote ≡ true)
    × (m'.disk.file ≡ env.marshal_indent p)
    × (is_some (env.marshal_indent p) ≡ true)
    × (m'.candidate ≡ none)
    × (m'.tested_hash ≡ "")
IsDeployed env m (m', rolled_back e steps) =
    (p : Profile) × IsTested env m p
    × (earlier : List Command) × (m'.commands
        ≡ record { host = p.ssh_host; script = rollback_script; stdin = "" } ∷ earlier)
    × (m'.candidate ≡ m.candidate)
    × (m'.disk.file ≡ m.disk.file)
    × (m'.tested_hash ≡ "")
IsDeployed env m (m', refused e) = Keeps m m'

replace_profile-Holds :
    (fails : Faults) (body : String) (d : Disk) → Holds (some body) d (replace_profile fails body d)
unfolding replace_profile attempt cleanup end_saving
replace_profile-Holds fails body d = ground arith

write_profile-Holds :
    (fails : Faults) (text : Option String) (d : Disk) → Holds text d (write_profile fails text d)
unfolding write_profile
write_profile-Holds fails none d = λ i. d.file
write_profile-Holds fails (some body) d = replace_profile-Holds fails body d

save_profile-Holds :
    (env : Env) (p : Profile) (d : Disk) → Holds (env.marshal_indent p) d (save_profile env p d)
unfolding save_profile
save_profile-Holds env p d = write_profile-Holds env.faults (env.marshal_indent p) d

module _ (env : Env) (m : Manager) (p : Profile) (t : IsTested env m p)
    (safe : safe_host p.ssh_host ≡ true) where
  roll_back-IsDeployed :
      (e : DeployError) (steps : List String) (n : Manager)
      → n.candidate ≡ m.candidate
      → n.disk.file ≡ m.disk.file
      → IsDeployed env m (roll_back env p e steps n)
  unfolding IsDeployed roll_back
  roll_back-IsDeployed e steps n c f =
      let (same, tested, disk) = run-Keeps env p.ssh_host rollback_script "" n in
      (
        p,
        t,
        n.commands,
        commands-run env p.ssh_host rollback_script "" n safe,
        same ∙ c,
        ap (λ d. d.file) disk ∙ f,
        refl,
      )

  finish_apply-IsDeployed :
      (remote : RemoteStatus) (n : Manager) (s : Saved)
      → Keeps m n
      → Holds (env.marshal_indent p) n.disk s
      → is_healthy (probe env p.ssh_host m).1.0 remote ≡ true
      → IsDeployed env m (finish_apply env p remote n s)
  unfolding IsDeployed finish_apply
  finish_apply-IsDeployed remote n (err e, d) k held healthy =
      roll_back-IsDeployed not_saved [] (record n { disk = d }) k.0 (held ∙ ap (λ d. d.file) k.2)
  finish_apply-IsDeployed remote n (ok u, d) k held healthy =
      (p, t, healthy, held.0, held.1, refl, refl)

  confirm-IsDeployed :
      (w : Manager × Option (Result DeployError RemoteStatus))
      → Keeps m w.0
      → found_healthy (probe env p.ssh_host m).1.0 w.1 ≡ true
      → IsDeployed env m (confirm env p (waited w))
  unfolding confirm
  confirm-IsDeployed (n, none) k h =
      roll_back-IsDeployed not_ended failed_steps n k.0 (ap (λ d. d.file) k.2)
  confirm-IsDeployed (n, some (err e)) k h =
      roll_back-IsDeployed e failed_steps n k.0 (ap (λ d. d.file) k.2)
  confirm-IsDeployed (n, some (ok r)) k h =
      finish_apply-IsDeployed r n (save_profile env p n.disk) k (save_profile-Holds env p n.disk) h

-- From a manager that a refusal leaves as the first one was.
after_script-IsDeployed :
    (env : Env) (m : Manager) (p : Profile) (n : Manager) (out : Result DeployError String)
    → IsTested env m p
    → safe_host p.ssh_host ≡ true
    → Keeps m n
    → IsDeployed env m (after_script env p (probe env p.ssh_host m).1.0 (n, out))
unfolding IsDeployed wait_healthy after_script
after_script-IsDeployed env m p n (err e) t safe k = k
after_script-IsDeployed env m p n (ok out) t safe k =
    let before = (probe env p.ssh_host m).1.0 in
    let deadline = env.clock 0 + 25 * second in
    let w = wait_rounds wait_fuel env deadline p.ssh_host before 1 n in
    let kept =
      keeps-keeps m n w.0 k (wait_rounds-Keeps wait_fuel env deadline p.ssh_host before 1 n) in
    let healthy = wait_rounds-is_healthy wait_fuel env deadline p.ssh_host before 1 n in
    elim (Bool-cases (codes_eq (trim_space (codes out)) (codes "applied"))) [
      | inl h ↦ rw h (confirm-IsDeployed env m p t safe w kept healthy)
      | inr h ↦ rw h k
    ]

after_probe-IsDeployed :
    (env : Env) (m : Manager) (p : Profile) (raw : String) (n : Manager) (e : Option DeployError)
    → IsTested env m p
    → (e ≡ none → safe_host p.ssh_host ≡ true)
    → Keeps m n
    → IsDeployed env m (after_probe env p raw (n, ((probe env p.ssh_host m).1.0, e)))
unfolding IsDeployed after_probe
after_probe-IsDeployed env m p raw n (some e) t safe k = k
after_probe-IsDeployed env m p raw n none t safe k =
    let sent = run env p.ssh_host apply_script raw n in
    after_script-IsDeployed env m p sent.0 sent.1 t (safe refl)
      (keeps-keeps m n sent.0 k (run-Keeps env p.ssh_host apply_script raw n))

-- What Apply has prepared is tested.
abbrev Prepared : Env → Manager → Result DeployError (Profile × String) → Type 0
unfolding OnOk
Prepared env m r = OnOk (λ (x : Profile × String). IsTested env m x.0) r

prepare_apply-Prepared : (env : Env) (m : Manager) → Prepared env m (prepare_apply env m)
unfolding prepare_apply Prepared OnOk
prepare_apply-Prepared env m =
    let P : Profile × String → Type 0 = λ x. IsTested env m x.0 in
    OnOk-bind P (current_profile env m) _ (λ p current.
      elim (Bool-cases (str_eq m.tested_hash "" || not (str_eq m.tested_hash (env.marshal p)))) [
        | inl h ↦ rw h tt
        | inr h ↦ rw h (
            OnOk-bind P (rendered env p) _
              (λ raw _. (current, ground (arith, h), ground (arith, h))))
      ])

-- After an Apply that ends as applied, the profile is one that the last test was of and stands in the
-- file, there is no draft and no test left, and the display is active, has not restarted and has a
-- snapshot that it did not have at the first probe. After one that is rolled back, the last command was
-- the rollback script on the display, the draft and the file are as they were, and no test is left.
-- After one that is refused, the draft, the test and the file are as they were.
pub apply-IsDeployed : (env : Env) (m : Manager) → IsDeployed env m (apply env m)
unfolding apply IsDeployed Prepared OnOk
apply-IsDeployed env m = applied (prepare_apply env m) (prepare_apply-Prepared env m)
  where
    applied :
        (r : Result DeployError (Profile × String))
        → Prepared env m r
        → IsDeployed env m (elim r [
          | err e ↦ (m, refused e)
          | ok (p, raw) ↦ after_probe env p raw (probe env p.ssh_host m)
        ])
    applied (err e) t = keeps_all m
    applied (ok (p, raw)) t =
        let probed = probe env p.ssh_host m in
        after_probe-IsDeployed env m p raw probed.0 probed.1.1 t (probe-safe_host env p.ssh_host m)
          (probe-Keeps env p.ssh_host m)
