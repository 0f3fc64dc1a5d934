-- ===== src/RemoteControl/Tests.antt =====
-- Runs of `Handle` of internal/remotecontrol/controller.go on concrete commands.
use homepi_mon.Common.{◌≡◌, ◌*◌, refl, true, false, [], ◌∷◌, none, some, arith, ok, err}
use homepi_mon.Common.Int.{pos}
use homepi_mon.Common.Time.{second}
use homepi_mon.Protocol.Enums.{
  next_page, normal, final, command_kind_valid, priority_valid, show_message, high,
}
use homepi_mon.Protocol.Params.{object, decode_step, str, decode_message}
use homepi_mon.Protocol.Ids.{valid_uuid, safe_command_id, valid_message}
use homepi_mon.Protocol.Command.{
  DisplayCommand, validate_command, validate_command_params, default_priority, params_ok,
}
use homepi_mon.Ui.Pages.{RotationConfig, coding, api, homelab}
use homepi_mon.Ui.Router.{new_router}
use homepi_mon.RemoteControl.Store.{find, accepted_record, completed_record}
use homepi_mon.RemoteControl.Controller.{Controller, Env, execute, handle, transient_failure}
use homepi_mon.RemoteControl.Execution.{SameDisplay}
use homepi_mon.RemoteControl.Admission.{IsAdmitted, handle-IsAdmitted}
use homepi_mon.RemoteControl.Guards.{handle_unwritten, handle_executes}

abbrev pub env : Env
env = record { now = 1000 * second; first_write = true; second_write = true; brightness = none }

abbrev pub full_disk : Env
full_disk = record env { first_write = false }

abbrev rotation : RotationConfig
rotation = record {
  order = coding ∷ api ∷ homelab ∷ [];
  dwell = (coding, 10 * second) ∷ (api, 20 * second) ∷ (homelab, 5 * second) ∷ [];
}

-- A display that has accepted the number 4 and has forgotten its command.
abbrev pub display : Controller
display = record {
  device_id = "kitchen";
  source_node = "node";
  router = new_router rotation (990 * second);
  store = record {
    state = record { high_sequence = 4; records = [] };
    disk = record { high_sequence = 4; records = [] };
  };
  notice = none;
  last_epoch = "epoch";
  last_version = 7;
}

abbrev pub turn : DisplayCommand
turn = record {
  schema_major = pos 1;
  command_id = "11111111-1111-4111-8111-111111111111";
  device_id = "kitchen";
  kind = next_page;
  params = object [];
  issued_at = 999 * second;
  expires_at = 1029 * second;
  priority = normal;
  sequence = 5;
}

abbrev late : DisplayCommand
late = record turn { sequence = 3 }

abbrev overdue : DisplayCommand
overdue = record turn { expires_at = 1000 * second }

unknown : find turn.command_id display.store.state.records ≡ none
unfolding find
unknown = refl

valid_turn : validate_command turn env.now ≡ ok tt
unfolding validate_command valid_uuid safe_command_id command_kind_valid priority_valid
    default_priority validate_command_params params_ok decode_step
valid_turn = refl

valid_late : validate_command late env.now ≡ ok tt
unfolding validate_command valid_uuid safe_command_id command_kind_valid priority_valid
    default_priority validate_command_params params_ok decode_step
valid_late = refl

overdue_expired : validate_command overdue env.now ≡ err "expired"
unfolding validate_command valid_uuid safe_command_id command_kind_valid priority_valid
    default_priority
overdue_expired = refl

handle_unwritten_example :
    let (c', results) = handle full_disk display turn in
    SameDisplay display c'
    × (results ≡ transient_failure full_disk.now turn "state_unavailable" ∷ [])
    × (c'.store.state.high_sequence ≡ turn.sequence)
    × (find turn.command_id c'.store.state.records
        ≡ some (accepted_record full_disk.now turn display.last_epoch display.last_version))
handle_unwritten_example =
    handle_unwritten full_disk display turn unknown valid_turn refl (omega arith) refl

handle_executes_example :
    let item = accepted_record env.now turn display.last_epoch display.last_version in
    let (shown, status, code) = execute env display turn.kind turn.params in
    let (c', results) = handle env display turn in
    SameDisplay shown c'
    × (results ≡ item.result ∷ (completed_record env.now status code item).result ∷ [])
    × (final status ≡ true)
handle_executes_example =
    handle_executes env display turn unknown valid_turn refl (omega arith) refl refl refl

abbrev say : DisplayCommand
say = record turn {
  kind = show_message;
  params = object (("text", str "hello") ∷ ("severity", str "info") ∷ []);
  priority = high;
}

valid_say : validate_command say env.now ≡ ok tt
unfolding validate_command valid_uuid safe_command_id command_kind_valid priority_valid
    default_priority validate_command_params params_ok decode_message valid_message
valid_say = refl

say_shows : ¬ SameDisplay display (handle env display say).0
unfolding execute
say_shows same =
    let (shown, answers, status) =
      handle_executes env display say unknown valid_say refl (omega arith) refl refl refl in
    ground (arith, same, shown)

handle-IsAdmitted_example : IsAdmitted env display say
handle-IsAdmitted_example = handle-IsAdmitted env display say say_shows
