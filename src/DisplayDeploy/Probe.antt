-- ===== src/DisplayDeploy/Probe.antt =====
-- internal/displaydeploy/deployer.go: the commands over SSH, the state that the display reports, and the
-- wait until it is healthy.
use homepi_mon.Common.{
  ℕ, zero, suc, ◌+◌, ◌-◌, ◌*◌, min, ltb, leb, ◌==◌, String, Bool, true, false, not, ◌&&◌, ◌||◌,
  Option, none, some, List, [], ◌∷◌, codes, Result, ok, err, if◌then◌else◌,
}
use homepi_mon.Common.Int.{ℤ, pos, sub_ℕ, eqb_ℤ}
use homepi_mon.Common.Time.{max_int64, second}
use homepi_mon.Common.Strconv.{split, cut, trim_space, codes_eq, is_digit}
use homepi_mon.DisplayConfig.{safe_host}
use homepi_mon.DisplayDeploy.{
  Env, Manager, Script, DeployError, incomplete_status, ssh_failed, invalid_host, probe_script,
  unhealthy, not_ended, cancelled,
}

-- RemoteStatus, its texts as code points.
pub record RemoteStatus : Type 0 where
  pub connected : Bool
  pub style : List ℕ
  pub device_id : List ℕ
  pub node_url_hash : List ℕ
  pub service_active : Bool
  pub restarts : ℤ  -- int
  pub snapshot_epoch : List ℕ
  pub snapshot_version : ℕ  -- uint64
  pub snapshot_time : List ℕ
  pub binary_version : List ℕ
  pub page_order : List ℕ
  pub page_dwell_seconds : List ℕ

abbrev pub no_status : RemoteStatus
no_status = record {
  connected = false;
  style = [];
  device_id = [];
  node_url_hash = [];
  service_active = false;
  restarts = pos 0;
  snapshot_epoch = [];
  snapshot_version = 0;
  snapshot_time = [];
  binary_version = [];
  page_order = [];
  page_dwell_seconds = [];
}

abbrev pub max_uint64 : ℕ
max_uint64 = 18_446_744_073_709_551_615

-- The value that `strconv.ParseUint` gives beside its error, which the code ignores: 0 for bad syntax,
-- and the largest uint64 once the digits exceed it.
unfoldable pub parse_uint : ℕ → List ℕ → ℕ
parse_uint n [] = n
parse_uint n (c ∷ cs) =
    let next = n * 10 + (c - b'0') in
    let rest = parse_uint next cs in
    if not (is_digit c) then 0 else if leb next max_uint64 then rest else max_uint64

-- The value of `strconv.Atoi`, whatever its error.
unfoldable pub int_value : List ℕ → ℤ
unfolding parse_uint
int_value [] = pos 0
int_value (c ∷ cs) =
    if c == b'-'
    then sub_ℕ 0 (min (parse_uint 0 cs) (max_int64 + 1))
    else pos (min (parse_uint 0 (if c == b'+' then cs else c ∷ cs)) max_int64)

unfoldable pub set_field : List ℕ → List ℕ → RemoteStatus → RemoteStatus
unfolding codes_eq int_value parse_uint
set_field key value s =
    if codes_eq key (codes "active")
    then record s { service_active = codes_eq value (codes "active") }
    else if codes_eq key (codes "style")
    then record s { style = value }
    else if codes_eq key (codes "device_id")
    then record s { device_id = value }
    else if codes_eq key (codes "node_url_hash")
    then record s { node_url_hash = value }
    else if codes_eq key (codes "restarts")
    then record s { restarts = int_value value }
    else if codes_eq key (codes "epoch")
    then record s { snapshot_epoch = value }
    else if codes_eq key (codes "version")
    then record s { snapshot_version = parse_uint 0 value }
    else if codes_eq key (codes "generated")
    then record s { snapshot_time = value }
    else if codes_eq key (codes "binary")
    then record s { binary_version = value }
    else if codes_eq key (codes "page_order")
    then record s { page_order = value }
    else if codes_eq key (codes "page_dwell_seconds")
    then record s { page_dwell_seconds = value }
    else s

unfoldable pub parse_line : List ℕ → RemoteStatus → RemoteStatus
unfolding cut set_field
parse_line line s =
    let (key, value, found) = cut b'=' line in if found then set_field key value s else s

unfoldable pub parse_lines : List (List ℕ) → RemoteStatus → RemoteStatus
unfolding parse_line
parse_lines [] s = s
parse_lines (line ∷ rest) s = parse_lines rest (parse_line line s)

abbrev pub is_empty : List ℕ → Bool
is_empty [] = true
is_empty (c ∷ cs) = false

abbrev with_connected : RemoteStatus → RemoteStatus
with_connected s = record s {
  connected = s.service_active && ltb 0 s.snapshot_version && not (is_empty s.snapshot_epoch);
}

abbrev pub Probed : Type 0
Probed = RemoteStatus × Option DeployError

abbrev complete : RemoteStatus → Probed
complete s = (s, if is_empty s.binary_version then some incomplete_status else none)

-- `parseProbe`
unfoldable pub parse_probe : String → Probed
unfolding split trim_space parse_lines
parse_probe raw =
    complete (with_connected (parse_lines (split 10 (trim_space (codes raw))) no_status))

abbrev answered : Option String → Result DeployError String
answered none = err ssh_failed
answered (some out) = ok out

-- `SSHRunner.Run`, which runs no command for a host that is not safe.
unfoldable pub run : Env → String → Script → String → Manager → Manager × Result DeployError String
unfolding safe_host
run env host script stdin m =
    let sent = record { host = host; script = script; stdin = stdin } ∷ m.commands in
    if safe_host host
    then (record m { commands = sent }, answered (env.answer sent))
    else (m, err invalid_host)

abbrev read_status : Result DeployError String → Probed
unfolding parse_probe
read_status (err e) = (no_status, some e)
read_status (ok out) = parse_probe out

-- `probe`
unfoldable pub probe : Env → String → Manager → Manager × Probed
unfolding safe_host run read_status
probe env host m =
    let (after, out) = run env host probe_script "" m in
    if safe_host host then (after, read_status out) else (m, (no_status, some invalid_host))

-- The display has a snapshot that it did not have before.
unfoldable pub advanced : RemoteStatus → RemoteStatus → Bool
unfolding codes_eq
advanced before s =
    not (is_empty s.snapshot_epoch)
    && (not (codes_eq s.snapshot_epoch before.snapshot_epoch)
        || ltb before.snapshot_version s.snapshot_version)

unfoldable pub is_healthy : RemoteStatus → RemoteStatus → Bool
unfolding advanced
is_healthy before s = s.service_active && eqb_ℤ s.restarts (pos 0) && advanced before s

abbrev pub is_none {ℓ} : {A : Type ℓ} → Option A → Bool
is_none none = true
is_none (some a) = false

abbrev pub last_error : Option DeployError → DeployError
last_error none = unhealthy
last_error (some e) = e

abbrev pub Waited : Type 0
Waited = Manager × Result DeployError RemoteStatus

-- The rounds of the wait, a probe in each: the clock is read after the probe, at the reading `round`.
-- The result is none when the fuel is used up.
unfoldable pub wait_rounds :
    ℕ
    → Env
    → ℕ
    → String
    → RemoteStatus
    → ℕ
    → Manager
    → Manager × Option (Result DeployError RemoteStatus)
unfolding probe is_healthy
wait_rounds zero env deadline host before round m = (m, none)
wait_rounds (suc fuel) env deadline host before round m =
    let (after, (status, error)) = probe env host m in
    let rest = wait_rounds fuel env deadline host before (suc round) after in
    if is_none error && is_healthy before status
    then (after, some (ok status))
    else if leb deadline (env.clock round)
    then (after, some (err (last_error error)))
    else if env.is_done round
    then (after, some (err cancelled))
    else rest

abbrev pub wait_fuel : ℕ
wait_fuel = 26

abbrev pub waited : Manager × Option (Result DeployError RemoteStatus) → Waited
waited (m, none) = (m, err not_ended)
waited (m, some r) = (m, r)

-- `waitHealthy`: until 25 seconds after the first reading of the clock.
unfoldable pub wait_healthy : Env → String → RemoteStatus → Manager → Waited
unfolding wait_rounds
wait_healthy env host before m =
    waited (wait_rounds wait_fuel env (env.clock 0 + 25 * second) host before 1 m)
