-- ===== src/RemoteControl/Guards.antt =====
-- When `Handle` of internal/remotecontrol/controller.go lets a command reach the display, and what its
-- results say.
use homepi_mon.Common.{
  ◌≤◌, ◌<◌, ◌≡◌, refl, ◌∙◌, ap, String, true, false, [], ◌∷◌, none, some, arith, str_eq,
  if◌then◌else◌, ok, err, le→leb,
}
use homepi_mon.Protocol.Enums.{rejected, final, is_refresh}
use homepi_mon.Protocol.Command.{DisplayCommand, CommandResult, validate_command}
use homepi_mon.RemoteControl.Store.{
  Store, LedgerRecord, lookup, find, accept, record_of, late_record, accepted_record,
  completed_record,
}
use homepi_mon.RemoteControl.Ledger.{accept-new, reject-new, find-append_record, complete-found}
use homepi_mon.RemoteControl.Execution.{SameDisplay, execute-store, execute-final}
use homepi_mon.RemoteControl.Controller.{
  Env, Controller, execute, transient_failure, run_command, after_accept, handle, rejection_status,
}

-- What stays when a command is refused.
abbrev pub Untouched : Controller → Controller → Type 0
Untouched c d = SameDisplay c d × (d.store.state.high_sequence ≡ c.store.state.high_sequence)

-- An unknown command that does not validate is answered by one final result with the code of the
-- refusal, `expired` for an expired command and `rejected` for any other, and touches nothing but the
-- ledger's records.
pub handle_invalid :
    (env : Env) (c : Controller) (command : DisplayCommand) {code : String}
    → find command.command_id c.store.state.records ≡ none
    → validate_command command env.now ≡ err code
    → let (c', results) = handle env c command in
      Untouched c c'
      × (results
          ≡ (record_of env.now command (rejection_status code) code (some env.now) "" 0).result
            ∷ [])
unfolding handle lookup
handle_invalid env c command {code} h v =
    ground
      (arith, reject-new env.now env.first_write command (rejection_status code) code c.store h)

-- A valid command for another device that the ledger does not know is answered by one final result,
-- rejected with the code `wrong_target`, and touches nothing but the ledger's records.
pub handle_wrong_target :
    (env : Env) (c : Controller) (command : DisplayCommand)
    → find command.command_id c.store.state.records ≡ none
    → validate_command command env.now ≡ ok tt
    → str_eq command.device_id c.device_id ≡ false
    → let (c', results) = handle env c command in
      Untouched c c'
      × (results
          ≡ (record_of env.now command rejected "wrong_target" (some env.now) "" 0).result ∷ [])
unfolding handle lookup
handle_wrong_target env c command h v d =
    ground (arith, reject-new env.now env.first_write command rejected "wrong_target" c.store h)

-- The part of `handle` that is left for a valid command of this device that the ledger does not know.
handle_valid :
    (env : Env) (c : Controller) (command : DisplayCommand)
    → find command.command_id c.store.state.records ≡ none
    → validate_command command env.now ≡ ok tt
    → str_eq command.device_id c.device_id ≡ true
    → handle env c command
      ≡ after_accept env c command
          (accept env.now env.first_write command c.last_epoch c.last_version c.store)
unfolding handle lookup
handle_valid env c command h v d = ground arith

-- A valid command of this device that the ledger does not know, with a number that is not above the
-- highest accepted one, never reaches the display, and the highest number stays: it is rejected as out
-- of order, or fails as `state_unavailable` when the ledger cannot be written.
pub handle_out_of_order :
    (env : Env) (c : Controller) (command : DisplayCommand)
    → find command.command_id c.store.state.records ≡ none
    → validate_command command env.now ≡ ok tt
    → str_eq command.device_id c.device_id ≡ true
    → command.sequence ≤ c.store.state.high_sequence
    → let (c', results) = handle env c command in
      Untouched c c'
      × (results
          ≡ (if env.first_write
              then (late_record env.now command c.last_epoch c.last_version).result
              else transient_failure env.now command "state_unavailable")
            ∷ [])
unfolding after_accept late_record
handle_out_of_order env c command h v d l = ground (
  arith,
  handle_valid env c command h v d,
  le→leb command.sequence c.store.state.high_sequence l,
  accept-new env.now env.first_write command c.last_epoch c.last_version c.store h,
)

-- When the ledger cannot be written, a valid new command of this device with a higher number does not
-- reach the display and fails as `state_unavailable`; but its number is the highest from then on, and
-- the ledger has it as accepted.
pub handle_unwritten :
    (env : Env) (c : Controller) (command : DisplayCommand)
    → find command.command_id c.store.state.records ≡ none
    → validate_command command env.now ≡ ok tt
    → str_eq command.device_id c.device_id ≡ true
    → c.store.state.high_sequence < command.sequence
    → env.first_write ≡ false
    → let (c', results) = handle env c command in
      SameDisplay c c'
      × (results ≡ transient_failure env.now command "state_unavailable" ∷ [])
      × (c'.store.state.high_sequence ≡ command.sequence)
      × (find command.command_id c'.store.state.records
          ≡ some (accepted_record env.now command c.last_epoch c.last_version))
unfolding after_accept accepted_record
handle_unwritten env c command h v d l w = ground (
  arith,
  handle_valid env c command h v d,
  accept-new env.now env.first_write command c.last_epoch c.last_version c.store h,
  find-append_record command.command_id
      (accepted_record env.now command c.last_epoch c.last_version) c.store.state.records h refl,
)

-- A refresh waits for a snapshot.
pub handle_refresh :
    (env : Env) (c : Controller) (command : DisplayCommand)
    → find command.command_id c.store.state.records ≡ none
    → validate_command command env.now ≡ ok tt
    → str_eq command.device_id c.device_id ≡ true
    → is_refresh command.kind ≡ true
    → SameDisplay c (handle env c command).0
unfolding after_accept
handle_refresh env c command h v d r = ground (arith, handle_valid env c command h v d)

-- The command at work: the display after its effect, and its two results.
run_command-results :
    (env : Env) (c : Controller) (command : DisplayCommand) (first : CommandResult)
    (r : LedgerRecord)
    → find command.command_id c.store.state.records ≡ some r
    → final r.result.status ≡ false
    → env.second_write ≡ true
    → let (shown, status, code) = execute env c command.kind command.params in
      let (c', results) = run_command env c command first in
      SameDisplay shown c'
      × (results ≡ first ∷ (completed_record env.now status code r).result ∷ [])
unfolding run_command
run_command-results env c command first r h n w =
    let (shown, status, code) = execute env c command.kind command.params in
    ground (
      arith,
      execute-store env c command,
      complete-found env.now env.second_write command.command_id status code shown.store r
          (ap (λ s. find command.command_id s.state.records) (execute-store env c command) ∙ h) n,
    )

-- The effect does not depend on the ledger.
execute-frame :
    (env : Env) (c : Controller) (command : DisplayCommand) (s : Store)
    → let (shown, status, code) = execute env c command.kind command.params in
      let (shown', status', code') =
        execute env (record c { store = s }) command.kind command.params in
      SameDisplay shown shown' × (status' ≡ status) × (code' ≡ code)
unfolding execute
execute-frame env c command s = ground arith

-- A valid new command of this device with a higher number, other than a refresh, has its effect on
-- the display, and is answered by `accepted` and then by one final result with the status and the
-- code of its execution.
pub handle_executes :
    (env : Env) (c : Controller) (command : DisplayCommand)
    → find command.command_id c.store.state.records ≡ none
    → validate_command command env.now ≡ ok tt
    → str_eq command.device_id c.device_id ≡ true
    → c.store.state.high_sequence < command.sequence
    → env.first_write ≡ true
    → env.second_write ≡ true
    → is_refresh command.kind ≡ false
    → let item = accepted_record env.now command c.last_epoch c.last_version in
      let (shown, status, code) = execute env c command.kind command.params in
      let (c', results) = handle env c command in
      SameDisplay shown c'
      × (results ≡ item.result ∷ (completed_record env.now status code item).result ∷ [])
      × (final status ≡ true)
unfolding after_accept accepted_record
handle_executes env c command h v d l w w' k =
    let item = accepted_record env.now command c.last_epoch c.last_version in
    let (s, a) = accept env.now env.first_write command c.last_epoch c.last_version c.store in
    let facts = accept-new env.now env.first_write command c.last_epoch c.last_version c.store h in
    let kept = find-append_record command.command_id item c.store.state.records h refl in
    ground (
      arith,
      handle_valid env c command h v d,
      facts,
      execute-frame env c command s,
      execute-final env c command,
      run_command-results env (record c { store = s }) command item.result item
          (ground (arith, facts, kept)) refl w',
    )
