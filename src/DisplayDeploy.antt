-- ===== src/DisplayDeploy.antt =====
-- internal/displaydeploy/deployer.go: the manager that configures the display over SSH, its state and
-- the current profile. What the display answers is a function of all the commands run so far.
pub mod Probe
pub mod Calls
pub mod Keeping
pub mod Deploying
mod Tests
use homepi_mon.Common.{
  ℕ, String, Bool, true, false, not, Option, none, some, List, [], ◌∷◌, str_eq, str_append, Result,
  ok, err, ◌>>=◌, ◌>>◌, refuse, if◌then◌else◌,
}
use homepi_mon.Common.Int.{ℤ, pos, eqb_ℤ}
use homepi_mon.Config.{DeviceConfig, Config}
use homepi_mon.ConfigTx as ConfigTx
use homepi_mon.ConfigTx.Service.{load_config}
use homepi_mon.DisplayConfig.{
  Environment, EnvironmentError, UrlParts, validate, default_text, default_page_order,
  default_page_dwell, default_data_dir, safe_host,
}
use homepi_mon.Files.{Faults, Disk}

pub record Profile : Type 0 where
  pub schema_version : ℤ  -- int
  pub ssh_host : String
  pub device_id : String
  pub node_url : String
  pub style : String
  pub data_dir : String
  pub device_token_ref : String
  pub page_order : String
  pub page_dwell_seconds : String

-- Edit
pub record ProfileEdit : Type 0 where
  pub ssh_host : String
  pub device_id : String
  pub node_url : String
  pub style : String
  pub data_dir : String
  pub page_order : String
  pub page_dwell_seconds : String

-- The scripts that the code sends.
pub data Script : Type 0 where
  probe_script validate_script apply_script rollback_script : Script

pub record Command : Type 0 where
  pub host : String
  pub script : Script
  pub stdin : String

pub data DeployError : Type 0 where
  invalid_host ssh_failed incomplete_status not_loaded no_paired_device not_paired : DeployError
  invalid_profile read_failed token_unavailable no_fingerprint : DeployError
  bad_environment : EnvironmentError → DeployError
  not_tested unexpected_response unhealthy cancelled not_ended : DeployError
  not_saved : DeployError

-- What the manager is given: the configuration file, the secret store, the fingerprint of a
-- certificate file, encoding/json on a profile, whether the profile can be read and which calls of its
-- replacement fail, what SSH gives for the commands run so far, the last one first, the readings of the
-- clock, and after which rounds of the wait the context is done.
pub record Env : Type 0 where
  pub tx : ConfigTx.Env
  pub config_file : Option String
  pub get : String → Option String
  pub fingerprint : String → Option String
  pub own_cert : String  -- cert.pem in the data directory
  pub parse_url : String → Option UrlParts
  pub marshal : Profile → String
  pub marshal_indent : Profile → Option String
  pub unmarshal : String → Option Profile
  pub reads : Bool
  pub faults : Faults
  pub answer : List Command → Option String
  pub clock : ℕ → ℕ
  pub is_done : ℕ → Bool

-- The manager, with the profile file and the commands that ran.
pub record Manager : Type 0 where
  pub candidate : Option Profile
  pub tested_hash : String
  pub disk : Disk
  pub commands : List Command

abbrev pub schema_version : ℤ
schema_version = pos 1

-- `New` of a store and a runner that are there.
unfoldable pub new_manager : Disk → Manager
new_manager disk = record { candidate = none; tested_hash = ""; disk = disk; commands = [] }

unfoldable pub normalize_profile : Profile → Profile
unfolding default_text
normalize_profile p = record p {
  page_order = default_text p.page_order default_page_order;
  page_dwell_seconds = default_text p.page_dwell_seconds default_page_dwell;
}

unfoldable pub load : Env → Result DeployError Config
unfolding load_config
load env = elim env.config_file [
  | none ↦ err not_loaded
  | some bytes ↦ elim (load_config env.tx bytes) [ err e ↦ err not_loaded | ok c ↦ ok c ]
]

abbrev first_profile : Config → List DeviceConfig → Result DeployError Profile
unfolding normalize_profile
first_profile c [] = err no_paired_device
first_profile c (d ∷ ds) = ok (
    normalize_profile (record {
      schema_version = schema_version;
      ssh_host = "dietpi";
      device_id = d.id;
      node_url = str_append "https://" c.listen.addr;
      style = "rich";
      data_dir = default_data_dir;
      device_token_ref = d.token_ref;
      page_order = "";
      page_dwell_seconds = "";
    }))

abbrev saved_profile : Option Profile → Result DeployError Profile
unfolding normalize_profile
saved_profile none = err invalid_profile
saved_profile (some p) =
    if eqb_ℤ p.schema_version schema_version then ok (normalize_profile p) else err invalid_profile

-- The profile of the file, or the one for the first paired device.
unfoldable pub disk_profile : Env → Option String → Result DeployError Profile
unfolding load first_profile saved_profile
disk_profile env file = if not env.reads then err read_failed else elim file [
  | some raw ↦ saved_profile (env.unmarshal raw)
  | none ↦ do c ← load env; first_profile c c.devices
]

-- `currentProfile`
unfoldable pub current_profile : Env → Manager → Result DeployError Profile
unfolding disk_profile
current_profile env m = elim m.candidate [ some p ↦ ok p | none ↦ disk_profile env m.disk.file ]

-- Its second result: the profile comes from the file.
unfoldable pub is_configured : Manager → Bool
is_configured m = elim m.candidate [
  | some p ↦ false
  | none ↦ elim m.disk.file [ some raw ↦ true | none ↦ false ]
]

abbrev cert_path : Env → Config → String
cert_path env c =
    let cert = c.listen.tls.cert in
    if str_eq cert "" then env.own_cert else if str_eq cert "auto" then env.own_cert else cert

abbrev given {ℓ} : {A : Type ℓ} → DeployError → Option A → Result DeployError A
given e none = err e
given e (some a) = ok a

unfoldable pub valid_environment : Env → Environment → Result DeployError Environment
unfolding validate
valid_environment env e = elim (validate env.parse_url e) [
  | ok u ↦ ok e
  | err x ↦ err (bad_environment x)
]

-- `environment`
unfoldable pub environment : Env → Profile → Result DeployError Environment
unfolding load valid_environment
environment env p = do
  c ← load env
  token ← given token_unavailable (env.get p.device_token_ref)
  pin ← given no_fingerprint (env.fingerprint (cert_path env c))
  valid_environment env (record {
    node_url = p.node_url;
    device_id = p.device_id;
    source_node = c.source_node.id;
    cert_pin = pin;
    device_token = token;
    data_dir = p.data_dir;
    style = p.style;
    page_order = p.page_order;
    page_dwell_seconds = p.page_dwell_seconds;
  })

-- The loop that looks for the device; it stops at the first device with the id.
unfoldable pub token_ref_of : String → List DeviceConfig → String
token_ref_of id [] = ""
token_ref_of id (d ∷ ds) =
    let rest = token_ref_of id ds in if str_eq d.id id then d.token_ref else rest

-- `derive`
unfoldable pub derive : Env → ProfileEdit → Result DeployError Profile
unfolding safe_host load token_ref_of normalize_profile environment
derive env e = do
  refuse (not (safe_host e.ssh_host)) invalid_host
  c ← load env
  refuse (str_eq (token_ref_of e.device_id c.devices) "") not_paired
  let p = normalize_profile (record {
    schema_version = schema_version;
    ssh_host = e.ssh_host;
    device_id = e.device_id;
    node_url = e.node_url;
    style = e.style;
    data_dir = e.data_dir;
    device_token_ref = token_ref_of e.device_id c.devices;
    page_order = e.page_order;
    page_dwell_seconds = e.page_dwell_seconds;
  })
  checked ← environment env p
  ok p
