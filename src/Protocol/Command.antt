-- ===== src/Protocol/Command.antt =====
-- internal/protocol/remote.go: the commands that a node sends to a display, and their validation.
-- A refusal is the code of the CommandValidationError, which `CommandErrorCode` reads back.
use homepi_mon.Common.{
  ℕ, ◌+◌, ◌-◌, ◌*◌, String, len, Bool, true, false, not, ◌&&◌, ◌||◌, List, [], ◌∷◌, Option, none,
  some, leb, ltb, ◌==◌, str_eq, length, text_mem, codes, if◌then◌else◌, Result, ok, ◌>>◌, refuse,
}
use homepi_mon.Common.Int.{ℤ, pos, leb_ℤ, ltb_ℤ, eqb_ℤ}
use homepi_mon.Common.Time.{second, minute}
use homepi_mon.Common.Strconv.{to_upper, codes_eq}
use homepi_mon.Protocol.Enums.{
  CommandKind, CommandPriority, CommandStatus, show_page, next_page, previous_page, set_rotation,
  refresh_data, show_message, set_brightness, other_command, normal, high, other_priority, final,
  is_accepted, command_kind_valid, priority_valid, priority_same,
}
use homepi_mon.Protocol.Ids.{safe_command_id, valid_message, valid_uuid}
use homepi_mon.Protocol.Params.{
  RawMessage, empty, object, PageCommandParams, StepPageCommandParams, RotationCommandParams,
  RefreshCommandParams, MessageCommandParams, BrightnessCommandParams, decode_page, decode_step,
  decode_rotation, decode_refresh, decode_message, decode_brightness,
}

abbrev pub max_command_ttl : ℕ
max_command_ttl = 5 * minute

abbrev pub max_command_clock_skew : ℕ
max_command_clock_skew = 30 * second

abbrev pub default_page_duration : ℕ
default_page_duration = 30 * second

pub record DisplayCommand : Type 0 where
  pub schema_major : ℤ
  pub command_id : String
  pub device_id : String
  pub kind : CommandKind
  pub params : RawMessage
  pub issued_at : ℕ
  pub expires_at : ℕ
  pub priority : CommandPriority
  pub sequence : ℕ  -- uint64

pub record CommandRequest : Type 0 where
  pub kind : CommandKind
  pub params : RawMessage
  pub priority : CommandPriority
  pub ttl_seconds : ℤ

pub record CommandResult : Type 0 where
  pub command_id : String
  pub sequence : ℕ  -- uint64
  pub status : CommandStatus
  pub code : String
  pub received_at : ℕ
  pub completed_at : Option ℕ
  pub duration_ms : ℤ

abbrev pub Verdict : Type 0
Verdict = Result String (Unit {0})

unfoldable pub default_priority : CommandKind → CommandPriority
default_priority show_message = high
default_priority _ = normal

abbrev pub valid_duration : ℤ → Bool
valid_duration s = leb_ℤ (pos 5) s && leb_ℤ s (pos 300)

abbrev pub valid_optional_duration : ℤ → Bool
valid_optional_duration s = eqb_ℤ s (pos 0) || valid_duration s

unfoldable pub valid_page : String → Bool
unfolding to_upper codes_eq
valid_page value =
    let v = to_upper (codes value) in
    codes_eq v (codes "CODING")
    || codes_eq v (codes "API")
    || codes_eq v (codes "HOMELAB")
    || codes_eq v (codes "SERVICES")
    || codes_eq v (codes "SYSTEM")

abbrev pub max_connector_ids : ℕ
max_connector_ids = 16

-- The loop over the connector IDs of a refresh, with those seen.
unfoldable pub valid_ids : List String → List String → Bool
valid_ids seen [] = true
valid_ids seen (id ∷ ids) =
    (safe_command_id id && not (text_mem id seen)) && valid_ids (id ∷ seen) ids

abbrev pub page_ok : Option PageCommandParams → Bool
page_ok none = false
page_ok (some p) = valid_page p.page_id && valid_optional_duration p.duration_seconds

abbrev pub step_ok : Option StepPageCommandParams → Bool
step_ok none = false
step_ok (some p) = valid_optional_duration p.duration_seconds

abbrev pub rotation_ok : Option RotationCommandParams → Bool
rotation_ok none = false
rotation_ok (some p) =
    valid_optional_duration p.duration_seconds && valid_optional_duration p.interval_seconds

abbrev pub refresh_ok : Option RefreshCommandParams → Bool
refresh_ok none = false
refresh_ok (some p) = leb (length p.connector_ids) max_connector_ids && valid_ids [] p.connector_ids

abbrev pub message_ok : Option MessageCommandParams → Bool
message_ok none = false
message_ok (some p) =
    valid_optional_duration p.duration_seconds
    && valid_message p.text
    && (str_eq p.severity "info" || str_eq p.severity "warning" || str_eq p.severity "critical")

abbrev pub brightness_ok : Option BrightnessCommandParams → Bool
brightness_ok none = false
brightness_ok (some p) = leb_ℤ (pos 0) p.level && leb_ℤ p.level (pos 100)

-- `raw` after an absent message became `{}`, which has to be one object.
abbrev pub or_object : RawMessage → RawMessage
or_object empty = object []
or_object raw = raw

abbrev pub is_object : RawMessage → Bool
is_object (object _) = true
is_object _ = false

unfoldable pub params_ok : CommandKind → RawMessage → Bool
unfolding valid_page valid_ids
params_ok show_page raw = page_ok (decode_page raw)
params_ok next_page raw = step_ok (decode_step raw)
params_ok previous_page raw = step_ok (decode_step raw)
params_ok set_rotation raw = rotation_ok (decode_rotation raw)
params_ok refresh_data raw = refresh_ok (decode_refresh raw)
params_ok show_message raw = message_ok (decode_message raw)
params_ok set_brightness raw = brightness_ok (decode_brightness raw)
params_ok (other_command _) raw = true

unfoldable pub validate_command_params : CommandKind → RawMessage → Verdict
validate_command_params kind raw = do
  refuse (not (is_object (or_object raw))) "invalid_param"
  refuse (not (params_ok kind (or_object raw))) "invalid_param"

unfoldable pub validate_command_request : CommandRequest → Verdict
validate_command_request r = do
  refuse (not (command_kind_valid r.kind)) "unknown_command"
  refuse (not (priority_valid r.priority)) "invalid_priority"
  refuse (not (priority_same r.priority (default_priority r.kind))) "invalid_priority"
  refuse (ltb_ℤ r.ttl_seconds (pos 5) || ltb_ℤ (pos 300) r.ttl_seconds) "invalid_ttl"
  validate_command_params r.kind r.params

-- The zero instant, an expiry that is not after the issue, or more than five minutes between them.
abbrev pub bad_times : DisplayCommand → Bool
bad_times c =
    c.issued_at == 0
    || c.expires_at == 0
    || leb c.expires_at c.issued_at
    || ltb max_command_ttl (c.expires_at - c.issued_at)

-- `DisplayCommand.Validate`.
unfoldable pub validate_command : DisplayCommand → ℕ → Verdict
validate_command c now = do
  refuse (not (eqb_ℤ c.schema_major (pos 1))) "schema_unsupported"
  refuse (not (valid_uuid c.command_id)) "invalid_command_id"
  refuse (not (safe_command_id c.device_id)) "wrong_target"
  refuse (c.sequence == 0) "invalid_sequence"
  refuse (not (command_kind_valid c.kind)) "unknown_command"
  refuse (not (priority_valid c.priority)) "invalid_priority"
  refuse (not (priority_same c.priority (default_priority c.kind))) "invalid_priority"
  refuse (bad_times c) "invalid_time"
  refuse (ltb (now + max_command_clock_skew) c.issued_at) "issued_in_future"
  refuse (leb c.expires_at now) "expired"
  validate_command_params c.kind c.params

abbrev pub no_priority : CommandPriority → Bool
no_priority (other_priority s) = str_eq s ""
no_priority _ = false

-- The two defaults of `DecodeCommandRequest`, then its validation.
unfoldable pub decode_command_request : CommandRequest → Result String CommandRequest
decode_command_request r = do
  let p = if no_priority r.priority then default_priority r.kind else r.priority
  let ttl = if eqb_ℤ r.ttl_seconds (pos 0) then pos 30 else r.ttl_seconds
  let full = record r { priority = p; ttl_seconds = ttl }
  validate_command_request full
  ok full

-- `code != "" && !safeCommandID(code)`; the length is part of the second test as well.
abbrev pub bad_code : String → Bool
bad_code code = ltb 64 (len code) || (not (str_eq code "") && not (safe_command_id code))

abbrev pub completes_before : Option ℕ → ℕ → Bool
completes_before none received = false
completes_before (some c) received = ltb c received

abbrev pub is_none : Option ℕ → Bool
is_none none = true
is_none (some _) = false

-- The field checks of `DecodeCommandResult`.
unfoldable pub validate_command_result : CommandResult → Verdict
validate_command_result r = do
  refuse
      (not (valid_uuid r.command_id)
        || r.sequence == 0
        || (not (is_accepted r.status) && not (final r.status))
        || r.received_at == 0)
      "invalid_result"
  refuse (final r.status && is_none r.completed_at) "invalid_result"
  refuse (completes_before r.completed_at r.received_at) "invalid_result"
  refuse (ltb_ℤ r.duration_ms (pos 0) || ltb_ℤ (pos 300_000) r.duration_ms) "invalid_result"
  refuse (bad_code r.code) "invalid_result"
