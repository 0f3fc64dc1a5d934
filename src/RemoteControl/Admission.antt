-- ===== src/RemoteControl/Admission.antt =====
-- Which commands reach the display through `Handle` of internal/remotecontrol/controller.go.
use homepi_mon.Common.{
  ◌<◌, ◌≡◌, ◌⊎◌, refl, String, true, false, inl, inr, none, arith, Bool-cases, Option-cases, leb,
  leb→le, str_eq, Result, ok, err,
}
use homepi_mon.Protocol.Enums.{is_refresh}
use homepi_mon.Protocol.Command.{DisplayCommand, validate_command}
use homepi_mon.RemoteControl.Store.{find}
use homepi_mon.RemoteControl.Execution.{SameDisplay, handle-known}
use homepi_mon.RemoteControl.Guards.{
  handle_invalid, handle_wrong_target, handle_out_of_order, handle_unwritten, handle_refresh,
}
use homepi_mon.RemoteControl.Controller.{Env, Controller, handle}

-- What has to hold of a command that changes the display.
pub record IsAdmitted (env : Env) (c : Controller) (command : DisplayCommand) : Type 0 where
  pub unknown : find command.command_id c.store.state.records ≡ none
  pub valid : validate_command command env.now ≡ ok tt
  pub mine : str_eq command.device_id c.device_id ≡ true
  pub next : c.store.state.high_sequence < command.sequence
  pub recorded : env.first_write ≡ true
  pub no_refresh : is_refresh command.kind ≡ false

Result-cases : (r : Result String (Unit {0})) → (r ≡ ok tt) ⊎ ((code : String) × (r ≡ err code))
Result-cases (ok _) = inl refl
Result-cases (err code) = inr (code, refl)

changed-IsAdmitted :
    (env : Env) (c : Controller) (command : DisplayCommand)
    → ¬ SameDisplay c (handle env c command).0
    → find command.command_id c.store.state.records ≡ none
    → validate_command command env.now ≡ ok tt
    → str_eq command.device_id c.device_id ≡ true
    → IsAdmitted env c command
changed-IsAdmitted env c command changed new valid mine =
    elim (Bool-cases (leb command.sequence c.store.state.high_sequence)) [
      | inl late ↦
          absurd (changed (handle_out_of_order env c command new valid mine (leb→le _ _ late)).0.0)
      | inr next ↦ elim (Bool-cases env.first_write) [
        | inr failed ↦
            absurd (changed (handle_unwritten env c command new valid mine (ground arith) failed).0)
        | inl wrote ↦ elim (Bool-cases (is_refresh command.kind)) [
          | inl refresh ↦ absurd (changed (handle_refresh env c command new valid mine refresh))
          | inr act ↦ record {
            unknown = new;
            valid = valid;
            mine = mine;
            next = ground arith;
            recorded = wrote;
            no_refresh = act;
          }
        ]
      ]
    ]

-- A command changes what the display shows only if the ledger does not know its id, it validates, it
-- is for this device, its number is above the highest accepted one, the ledger has been written with
-- it before, and it is no refresh.
pub handle-IsAdmitted :
    (env : Env) (c : Controller) (command : DisplayCommand)
    → ¬ SameDisplay c (handle env c command).0
    → IsAdmitted env c command
handle-IsAdmitted env c command changed =
    elim (Option-cases (find command.command_id c.store.state.records)) [
      | inr (r, known) ↦ absurd (changed (rw (handle-known env c command r known) (refl, refl)))
      | inl new ↦ elim (Result-cases (validate_command command env.now)) [
        | inr (code, bad) ↦ absurd (changed (handle_invalid env c command new bad).0.0)
        | inl valid ↦ elim (Bool-cases (str_eq command.device_id c.device_id)) [
          | inr other ↦ absurd (changed (handle_wrong_target env c command new valid other).0.0)
          | inl mine ↦ changed-IsAdmitted env c command changed new valid mine
        ]
      ]
    ]
