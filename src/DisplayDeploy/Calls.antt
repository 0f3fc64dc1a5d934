-- ===== src/DisplayDeploy/Calls.antt =====
-- internal/displaydeploy/deployer.go: the calls of the manager.
use homepi_mon.Common.{
  String, Bool, true, false, not, ◌&&◌, ◌||◌, Option, none, some, List, [], ◌∷◌, ◌++◌, codes,
  str_eq, is_some, Result, ok, err, ◌>>=◌, ◌>>◌, refuse, if◌then◌else◌,
}
use homepi_mon.Common.Strconv.{trim_space, codes_eq}
use homepi_mon.DisplayConfig.{render}
use homepi_mon.DisplayDeploy.{
  Env, Manager, Profile, ProfileEdit, DeployError, current_profile, is_configured, environment,
  derive, validate_script, apply_script, rollback_script, not_tested, unexpected_response,
  not_saved, bad_environment,
}
use homepi_mon.DisplayDeploy.Probe.{RemoteStatus, Probed, run, probe, wait_healthy, is_empty}
use homepi_mon.Files.{
  Faults, Disk, Saved, attempt, cleanup, end_saving, keep, new_temp, fill, renamed,
}
use homepi_mon.Files as Files

-- State, without the text of a failed probe, of which only the error is kept.
pub record View : Type 0 where
  pub profile : ProfileEdit
  pub configured : Bool
  pub token_present : Bool
  pub tested : Bool
  pub differences : List String
  pub remote : RemoteStatus
  pub note : Option DeployError

-- Result
pub data DeployResult : Type 0 where
  finished : String → List String → RemoteStatus → DeployResult
  rolled_back : DeployError → List String → DeployResult
  refused : DeployError → DeployResult

unfoldable pub public_edit : Profile → ProfileEdit
public_edit p = record {
  ssh_host = p.ssh_host;
  device_id = p.device_id;
  node_url = p.node_url;
  style = p.style;
  data_dir = p.data_dir;
  page_order = p.page_order;
  page_dwell_seconds = p.page_dwell_seconds;
}

unfoldable pub token_present : Env → String → Bool
token_present env ref = not (str_eq ref "") && is_some (env.get ref)

abbrev when : Bool → String → List String
when true name = name ∷ []
when false name = []

unfoldable pub differences : Env → Profile → RemoteStatus → List String
unfolding codes_eq
differences env p r =
    when (not (codes_eq r.style (codes p.style))) "style"
    ++ when (not (is_empty r.device_id) && not (codes_eq r.device_id (codes p.device_id)))
        "device_id"
    ++ when
        (not (is_empty r.node_url_hash)
          && not (codes_eq r.node_url_hash (codes (env.tx.sha256_hex p.node_url))))
        "node_url"
    ++ when (not (codes_eq r.page_order (codes p.page_order))) "page_order"
    ++ when (not (codes_eq r.page_dwell_seconds (codes p.page_dwell_seconds))) "page_dwell_seconds"

abbrev view : Env → Profile → Manager → Manager × Probed → Manager × Result DeployError View
unfolding public_edit token_present differences is_configured
view env p m (after, (remote, error)) = (
  after,
  ok (record {
    profile = public_edit p;
    configured = is_configured m || (is_some m.candidate && is_some m.disk.file);
    token_present = token_present env p.device_token_ref;
    tested = str_eq m.tested_hash (env.marshal p);
    differences = differences env p remote;
    remote = remote;
    note = error;
  }),
)

-- `State`
unfoldable pub state : Env → Manager → Manager × Result DeployError View
unfolding current_profile probe view
state env m = elim (current_profile env m) [
  | err e ↦ (m, err e)
  | ok p ↦ view env p m (probe env p.ssh_host m)
]

-- `Target`
unfoldable pub target : Env → Manager → Result DeployError String
unfolding current_profile
target env m = do p ← current_profile env m; ok p.device_id

-- `Edit`
unfoldable pub edit : Env → ProfileEdit → Manager → Manager × Result DeployError View
unfolding derive state
edit env e m = elim (derive env e) [
  | err x ↦ (m, err x)
  | ok p ↦ state env (record m { candidate = some p; tested_hash = "" })
]

unfoldable pub rendered : Env → Profile → Result DeployError String
unfolding environment render
rendered env p = do
  e ← environment env p
  elim (render env.parse_url e) [ ok raw ↦ ok raw | err x ↦ err (bad_environment x) ]

abbrev Sent : Type 0
Sent = Manager × Result DeployError String

-- `Test` after the candidate was validated on the display, and after the last probe.
abbrev tested : Env → Profile → Manager × Probed → Manager × DeployResult
tested env p (m, (remote, some e)) = (m, refused e)
tested env p (m, (remote, none)) = (
  record m { tested_hash = env.marshal p },
  finished "tested" ("profile_validated" ∷ "ssh_connected" ∷ "candidate_validated" ∷ []) remote,
)

abbrev test_remote : Env → Profile → Sent → Manager × DeployResult
unfolding probe
test_remote env p (m, err e) = (m, refused e)
test_remote env p (m, ok out) = tested env p (probe env p.ssh_host m)

unfoldable pub prepare_test : Env → Manager → Result DeployError (Profile × String)
unfolding current_profile rendered
prepare_test env m = do p ← current_profile env m; raw ← rendered env p; ok (p, raw)

-- `Test`
unfoldable pub test : Env → Manager → Manager × DeployResult
unfolding prepare_test run test_remote
test env m = elim (prepare_test env m) [
  | err e ↦ (m, refused e)
  | ok (p, raw) ↦ test_remote env p (run env p.ssh_host validate_script raw m)
]

-- `saveProfile`: the temporary file is made private, written, synced, closed and renamed.
unfoldable pub replace_profile : Faults → String → Disk → Saved
unfolding attempt cleanup end_saving
replace_profile fails body = attempt fails Files.mkdir_all keep keep (
    attempt fails Files.create_temp keep new_temp (
      attempt fails Files.chmod (cleanup fails) keep (
        attempt fails Files.write (cleanup fails) (fill body) (
          attempt fails Files.sync (cleanup fails) keep (
            attempt fails Files.close (cleanup fails) keep
              (attempt fails Files.rename (cleanup fails) renamed end_saving))))))

unfoldable pub write_profile : Faults → Option String → Disk → Saved
unfolding replace_profile
write_profile fails none d = (err Files.marshal, d)
write_profile fails (some body) d = replace_profile fails body d

unfoldable pub save_profile : Env → Profile → Disk → Saved
unfolding write_profile
save_profile env p d = write_profile env.faults (env.marshal_indent p) d

-- The rollback script, whose result is ignored; the candidate has to be tested again.
unfoldable pub roll_back :
    Env → Profile → DeployError → List String → Manager → Manager × DeployResult
unfolding run
roll_back env p e steps m =
    let (after, out) = run env p.ssh_host rollback_script "" m in
    (record after { tested_hash = "" }, rolled_back e steps)

abbrev pub failed_steps : List String
failed_steps =
    "candidate_installed" ∷ "service_restarted" ∷ "health_failed" ∷ "environment_rolled_back" ∷ []

abbrev applied_steps : List String
applied_steps =
    "candidate_installed" ∷ "service_restarted" ∷ "service_active" ∷ "snapshot_confirmed"
    ∷ "profile_saved" ∷ []

unfoldable pub finish_apply :
    Env → Profile → RemoteStatus → Manager → Saved → Manager × DeployResult
unfolding roll_back
finish_apply env p remote m (err e, d) = roll_back env p not_saved [] (record m { disk = d })
finish_apply env p remote m (ok u, d) = (
  record m { disk = d; candidate = none; tested_hash = "" },
  finished "applied" applied_steps remote,
)

-- `Apply` after the wait, after the script, after the probe, and from the start.
unfoldable pub confirm :
    Env → Profile → Manager × Result DeployError RemoteStatus → Manager × DeployResult
unfolding roll_back finish_apply save_profile
confirm env p (m, err e) = roll_back env p e failed_steps m
confirm env p (m, ok remote) = finish_apply env p remote m (save_profile env p m.disk)

unfoldable pub after_script : Env → Profile → RemoteStatus → Sent → Manager × DeployResult
unfolding confirm wait_healthy trim_space codes_eq
after_script env p before (m, err e) = (m, refused e)
after_script env p before (m, ok out) =
    if codes_eq (trim_space (codes out)) (codes "applied")
    then confirm env p (wait_healthy env p.ssh_host before m)
    else (m, refused unexpected_response)

unfoldable pub after_probe : Env → Profile → String → Manager × Probed → Manager × DeployResult
unfolding after_script run
after_probe env p raw (m, (before, some e)) = (m, refused e)
after_probe env p raw (m, (before, none)) =
    after_script env p before (run env p.ssh_host apply_script raw m)

unfoldable pub prepare_apply : Env → Manager → Result DeployError (Profile × String)
unfolding current_profile rendered
prepare_apply env m = do
  p ← current_profile env m
  refuse (str_eq m.tested_hash "" || not (str_eq m.tested_hash (env.marshal p))) not_tested
  raw ← rendered env p
  ok (p, raw)

-- `Apply`
unfoldable pub apply : Env → Manager → Manager × DeployResult
unfolding prepare_apply probe after_probe
apply env m = elim (prepare_apply env m) [
  | err e ↦ (m, refused e)
  | ok (p, raw) ↦ after_probe env p raw (probe env p.ssh_host m)
]
