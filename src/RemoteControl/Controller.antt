-- ===== src/RemoteControl/Controller.antt =====
-- internal/remotecontrol/controller.go: how a display validates and executes commands. The lines of
-- the log are left out. A call of `handle` takes what the system answers it: one instant for all
-- readings of the clock, the outcome of each write of the ledger, and the backlight.
use homepi_mon.Common.{
  ℕ, ◌+◌, ◌-◌, ◌*◌, String, Bool, false, not, ◌||◌, List, [], ◌∷◌, Option, none, some, leb, ltb,
  str_eq, codes, if◌then◌else◌, Result, ok, err,
}
use homepi_mon.Common.Int.{ℤ, pos, pos_part, eqb_ℤ}
use homepi_mon.Common.Time.{second, minute}
use homepi_mon.Protocol.Enums.{
  CommandKind, CommandStatus, show_page, next_page, previous_page, set_rotation, refresh_data,
  show_message, set_brightness, other_command, executed, rejected, expired, failed, final,
  is_refresh,
}
use homepi_mon.Protocol.Params.{
  RawMessage, decode_page, decode_step, decode_rotation, decode_message, decode_brightness,
  PageCommandParams, RotationCommandParams, MessageCommandParams, BrightnessCommandParams,
}
use homepi_mon.Protocol.Command.{
  DisplayCommand, CommandResult, validate_command, default_page_duration,
}
use homepi_mon.Protocol.Snapshot.{MetricSnapshot}
use homepi_mon.Ui.Pages.{parse_page}
use homepi_mon.Ui.Router.{Router}
use homepi_mon.Ui.Router
use homepi_mon.RemoteControl.Store.{
  Store, LedgerRecord, Acceptance, lookup, accept, reject, complete, pending_refreshes,
}

pub record NoticeState : Type 0 where
  pub text : String
  pub severity : String
  pub expires : ℕ

pub record Controller : Type 0 where
  pub device_id : String
  pub source_node : String
  pub router : Router
  pub store : Store
  pub notice : Option NoticeState
  pub last_epoch : String
  pub last_version : ℕ

-- `brightness` is absent on a display without a backlight; `Set` succeeds or fails by the level.
pub record Env : Type 0 where
  pub now : ℕ
  pub first_write : Bool
  pub second_write : Bool
  pub brightness : Option (ℤ → Bool)

-- `params, _ := DecodeCommandParams(…)`: where the parameters do not decode, which `validate_command`
-- lets pass for absent parameters alone, the struct is zero.
abbrev pub or_zero {ℓ} : {P : Type ℓ} → P → Option P → P
or_zero zero_value none = zero_value
or_zero zero_value (some p) = p

-- Validated seconds are not negative.
abbrev pub seconds : ℤ → ℕ
seconds s = pos_part s * second

unfoldable pub command_duration : ℤ → ℕ → ℕ
command_duration s fallback = if eqb_ℤ s (pos 0) then fallback else seconds s

abbrev pub step_duration : RawMessage → ℕ
step_duration raw =
    let p = or_zero (record { duration_seconds = pos 0 }) (decode_step raw) in
    command_duration p.duration_seconds default_page_duration

abbrev pub show_page_on : ℕ → PageCommandParams → Router → Router
show_page_on now p =
    Router.show_page (parse_page (codes p.page_id))
      (command_duration p.duration_seconds default_page_duration) now

abbrev pub set_rotation_on : ℕ → RotationCommandParams → Router → Router
set_rotation_on now p =
    Router.set_rotation p.enabled (seconds p.interval_seconds)
      (command_duration p.duration_seconds (5 * minute)) now

abbrev pub notice_of : ℕ → MessageCommandParams → NoticeState
notice_of now p = record {
  text = p.text;
  severity = p.severity;
  expires = now + command_duration p.duration_seconds default_page_duration;
}

abbrev pub brightness_outcome : Option (ℤ → Bool) → BrightnessCommandParams → CommandStatus × String
brightness_outcome none p = (failed, "unsupported_capability")
brightness_outcome (some set) p =
    if set p.level then (executed, "") else (failed, "brightness_failed")

-- The `switch` of `Handle`: the effect of a command, with the status and the code of its result.
unfoldable pub execute :
    Env → Controller → CommandKind → RawMessage → Controller × CommandStatus × String
execute env c show_page raw =
    let p = or_zero (record { page_id = ""; duration_seconds = pos 0 }) (decode_page raw) in
    (record c { router = show_page_on env.now p c.router }, executed, "")
execute env c next_page raw =
    (record c { router = Router.next_page (step_duration raw) env.now c.router }, executed, "")
execute env c previous_page raw =
    (record c { router = Router.previous_page (step_duration raw) env.now c.router }, executed, "")
execute env c set_rotation raw =
    let p =
      or_zero (record { enabled = false; interval_seconds = pos 0; duration_seconds = pos 0 })
        (decode_rotation raw) in
    (record c { router = set_rotation_on env.now p c.router }, executed, "")
execute env c show_message raw =
    let p =
      or_zero (record { text = ""; severity = ""; duration_seconds = pos 0 })
        (decode_message raw) in
    (record c { notice = some (notice_of env.now p) }, executed, "")
execute env c set_brightness raw =
    let p = or_zero (record { level = pos 0 }) (decode_brightness raw) in
    let (status, code) = brightness_outcome env.brightness p in (c, status, code)
execute env c refresh_data raw = (c, executed, "")
execute env c (other_command _) raw = (c, executed, "")

unfoldable pub transient_failure : ℕ → DisplayCommand → String → CommandResult
transient_failure now command code = record {
  command_id = command.command_id;
  sequence = command.sequence;
  status = failed;
  code = code;
  received_at = now;
  completed_at = some now;
  duration_ms = pos 0;
}

abbrev pub after_complete :
    Env
    → Controller
    → DisplayCommand
    → CommandResult
    → Store × Option LedgerRecord
    → Controller × List CommandResult
after_complete env c command first (s, none) =
    (record c { store = s }, first ∷ transient_failure env.now command "state_unavailable" ∷ [])
after_complete env c command first (s, some r) = (record c { store = s }, first ∷ r.result ∷ [])

unfoldable pub run_command :
    Env → Controller → DisplayCommand → CommandResult → Controller × List CommandResult
run_command env c command first =
    let (c', status, code) = execute env c command.kind command.params in
    after_complete env c' command first
      (complete env.now env.second_write command.command_id status code c'.store)

-- From the answer of the ledger's `accept`.
unfoldable pub after_accept :
    Env → Controller → DisplayCommand → Store × Acceptance → Controller × List CommandResult
after_accept env c command (s, a) =
    let c' = record c { store = s } in
    if not a.wrote
    then (c', transient_failure env.now command "state_unavailable" ∷ [])
    else if a.duplicate || final a.item.result.status
    then (c', a.item.result ∷ [])
    else if is_refresh command.kind
    then (c', a.item.result ∷ [])
    else run_command env c' command a.item.result

abbrev pub after_reject : Controller → Store × LedgerRecord → Controller × List CommandResult
after_reject c (s, r) = (record c { store = s }, r.result ∷ [])

abbrev pub rejection_status : String → CommandStatus
rejection_status code = if str_eq code "expired" then expired else rejected

abbrev pub handle_new :
    Env → Controller → DisplayCommand → Result String (Unit {0}) → Controller × List CommandResult
handle_new env c command (err code) =
    after_reject c (reject env.now env.first_write command (rejection_status code) code c.store)
handle_new env c command (ok _) =
    if not (str_eq command.device_id c.device_id)
    then after_reject c (reject env.now env.first_write command rejected "wrong_target" c.store)
    else after_accept env c command
        (accept env.now env.first_write command c.last_epoch c.last_version c.store)

abbrev pub handle_found :
    Option LedgerRecord
    → Controller
    → Controller × List CommandResult
    → Controller × List CommandResult
handle_found none c new = new
handle_found (some r) c new = (c, r.result ∷ [])

unfoldable pub handle : Env → Controller → DisplayCommand → Controller × List CommandResult
handle env c command =
    handle_found (lookup command.command_id c.store) c
      (handle_new env c command (validate_command command env.now))

-- The snapshot is of another epoch than the refresh's baseline, or of a later version.
abbrev pub advanced : MetricSnapshot → LedgerRecord → Bool
advanced s r =
    not (str_eq s.source_epoch r.baseline_epoch) || ltb r.baseline_version s.snapshot_version

abbrev pub add_completed :
    Store × Option LedgerRecord → (Store → Store × List CommandResult) → Store × List CommandResult
add_completed (s, none) rest = rest s
add_completed (s, some r) rest = let (s', results) = rest s in (s', r.result ∷ results)

-- The loop over the pending refreshes, each with the outcome of its write.
unfoldable pub complete_refreshes :
    ℕ → (String → Bool) → MetricSnapshot → List LedgerRecord → Store → Store × List CommandResult
complete_refreshes now writes snapshot [] s = (s, [])
complete_refreshes now writes snapshot (r ∷ rs) s =
    if not (advanced snapshot r)
    then complete_refreshes now writes snapshot rs s
    else add_completed (complete now (writes r.command_id) r.command_id executed "" s)
        (complete_refreshes now writes snapshot rs)

unfoldable pub snapshot_applied :
    ℕ → (String → Bool) → Controller → Option MetricSnapshot → Controller × List CommandResult
snapshot_applied now writes c none = (c, [])
snapshot_applied now writes c (some snapshot) =
    let pending = pending_refreshes c.store.state.records in
    let (s, results) = complete_refreshes now writes snapshot pending c.store in
    (
      record c {
        store = s;
        last_epoch = snapshot.source_epoch;
        last_version = snapshot.snapshot_version;
      },
      results,
    )

pub record RemoteNotice : Type 0 where
  pub text : String
  pub severity : String
  pub source : String
  pub return_in : ℕ

abbrev pub live_notice : ℕ → Option NoticeState → Option NoticeState
live_notice now none = none
live_notice now (some n) = if leb n.expires now then none else some n

abbrev pub shown_notice : ℕ → String → Option NoticeState → Option RemoteNotice
shown_notice now source none = none
shown_notice now source (some n) =
    some (record {
      text = n.text;
      severity = n.severity;
      source = source;
      return_in = n.expires - now;
    })

-- `Notice`: an expired notice goes.
unfoldable pub notice_at : ℕ → Controller → Controller × Option RemoteNotice
notice_at now c =
    let n = live_notice now c.notice in (record c { notice = n }, shown_notice now c.source_node n)
