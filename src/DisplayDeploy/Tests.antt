-- ===== src/DisplayDeploy/Tests.antt =====
-- Tests of the deployment to a display, and the witnesses of its theorems.
use homepi_mon.Common.{
  ◌+◌, ◌*◌, ◌≡◌, refl, String, Bool, true, false, Option, none, some, List, [], ◌∷◌, str_append,
  is_some, if◌then◌else◌, arith,
}
use homepi_mon.Common.Time.{second}
use homepi_mon.Common.Strconv.{atoi}
use homepi_mon.Ui.Pages.{parse_rotation_config, parse_page}
use homepi_mon.Config.{Config}
use homepi_mon.Config.Tests.{platform, node_config}
use homepi_mon.ConfigTx as ConfigTx
use homepi_mon.DisplayDeploy.{
  Env, Manager, ProfileEdit, Command, Script, new_manager, probe_script, apply_script,
  validate_script, rollback_script,
}
use homepi_mon.DisplayDeploy.Probe.{no_status, wait_rounds, wait_fuel}
use homepi_mon.DisplayDeploy.Calls.{DeployResult, finished, rolled_back, refused, edit, test, apply}
use homepi_mon.DisplayDeploy.Keeping.{wait_rounds-is_some}
use homepi_mon.DisplayDeploy.Deploying.{IsDeployed, apply-IsDeployed}

abbrev config : Config
config = record (node_config []) {
  devices =
      record { id = "pi"; token_ref = "keyring:device-token:pi"; subscribed_metrics = [] } ∷ [];
}

abbrev tx : ConfigTx.Env
tx = record {
  net = platform;
  known_types = [];
  registry = [];
  json = record { encode = λ _. none; decode = λ _. some config };
  marshal_provider = λ p. none;
  sha256_hex = λ text. str_append "#" text;
  config_path = "/etc/config.json";
}

abbrev pin : String
pin =
    "00:11:22:33:44:55:66:77:88:99:aa:bb:cc:dd:ee:ff:00:11:22:33:44:55:66:77:88:99:AA:BB:CC:DD:EE:FF"

-- The display answers each script; its snapshot advances once three commands have run.
abbrev answer : Bool → List Command → Option String
answer heals [] = none
answer heals (c ∷ cs) = elim c.script [
  | probe_script ↦ some (elim cs [
    | [] ↦ "active=active\nrestarts=0\nstyle=rich\nepoch=e1\nversion=7\nbinary=v1"
    | d ∷ ds ↦
        if heals
        then "active=active\nrestarts=0\nstyle=rich\nepoch=e1\nversion=8\nbinary=v1"
        else "active=failed\nbinary=v1"
  ])
  | validate_script ↦ some "validated\n"
  | apply_script ↦ some "applied\n"
  | rollback_script ↦ some "rolled_back\n"
]

abbrev env : Bool → Env
env heals = record {
  tx = tx;
  config_file = some "{}";
  get = λ ref. some "token";
  fingerprint = λ path. some pin;
  own_cert = "/data/cert.pem";
  parse_url = λ text. some (record {
    scheme = "https";
    host = "127.0.0.1:8443";
    has_user = false;
    raw_query = "";
    fragment = "";
    path = "";
  });
  marshal = λ p. p.ssh_host;
  marshal_indent = λ p. some p.ssh_host;
  unmarshal = λ text. none;
  reads = true;
  faults = λ _. false;
  answer = answer heals;
  clock = λ n. n * (30 * second);
  is_done = λ _. false;
}

-- A manager whose profile for the first device is tested.
abbrev start : Manager
start = record (new_manager (record { file = none; temp = none })) { tested_hash = "dietpi" }

abbrev status_of : DeployResult → String
status_of (finished status steps remote) = status
status_of (rolled_back e steps) = "rolled_back"
status_of (refused e) = "refused"

applies : status_of (apply (env true) start).1 ≡ "applied"
unfolding apply new_manager parse_rotation_config parse_page atoi
applies = refl

rolls_back : status_of (apply (env false) start).1 ≡ "rolled_back"
unfolding apply new_manager parse_rotation_config parse_page atoi
rolls_back = refl

-- The scripts that a rollback leaves behind, the last one first.
abbrev scripts : List Command → List Script
scripts [] = []
scripts (c ∷ cs) = c.script ∷ scripts cs

rollback_last :
    scripts (apply (env false) start).0.commands
    ≡ rollback_script ∷ probe_script ∷ apply_script ∷ probe_script ∷ []
unfolding apply new_manager parse_rotation_config parse_page atoi
rollback_last = refl

abbrev ascii_edit : ProfileEdit
ascii_edit = record {
  ssh_host = "dietpi";
  device_id = "pi";
  node_url = "https://127.0.0.1:8443";
  style = "ascii";
  data_dir = "/var/lib/homepi-display";
  page_order = "";
  page_dwell_seconds = "";
}

-- An edit has to be tested before it is applied.
untested : status_of (apply (env true) (edit (env true) ascii_edit start).0).1 ≡ "refused"
unfolding apply edit new_manager parse_rotation_config parse_page atoi
untested = refl

tests : status_of (test (env true) (edit (env true) ascii_edit start).0).1 ≡ "tested"
unfolding test edit new_manager parse_rotation_config parse_page atoi
tests = refl

apply-IsDeployed_example : IsDeployed (env true) start (apply (env true) start)
apply-IsDeployed_example = apply-IsDeployed (env true) start

wait_rounds-is_some_example :
    is_some
      (wait_rounds wait_fuel
        (env false)
        (0 * (30 * second) + 25 * second)
        "dietpi"
        no_status
        1
        start).1
    ≡ true
wait_rounds-is_some_example =
    wait_rounds-is_some (env false) "dietpi" no_status start (omega arith) (λ n. omega arith)
