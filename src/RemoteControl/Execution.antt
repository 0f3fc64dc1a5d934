-- ===== src/RemoteControl/Execution.antt =====
-- The effect of `Handle` of internal/remotecontrol/controller.go on the display and on the ledger.
use homepi_mon.Common.{
  ◌≡◌, refl, sym, ◌∙◌, ap, String, true, [], ◌∷◌, Option, none, some, arith, is_some, subst,
}
use homepi_mon.Protocol.Enums.{final}
use homepi_mon.Protocol.Command.{DisplayCommand, CommandResult}
use homepi_mon.RemoteControl.Store.{Store, LedgerRecord, Acceptance, lookup, find, complete}
use homepi_mon.RemoteControl.Ledger.{Keeps, complete-Keeps}
use homepi_mon.RemoteControl.Controller.{
  Env, Controller, execute, after_complete, run_command, after_accept, handle,
}

-- The effect of a command leaves the ledger alone.
pub execute-store :
    (env : Env) (c : Controller) (command : DisplayCommand)
    → (execute env c command.kind command.params).0.store ≡ c.store
unfolding execute
execute-store env c command = ground arith

-- The controller that takes no part in the ledger: what is shown, and the notice.
abbrev pub SameDisplay : Controller → Controller → Type 0
SameDisplay c d = (d.router ≡ c.router) × (d.notice ≡ c.notice)

-- The status of the final result of a command is final.
pub execute-final :
    (env : Env) (c : Controller) (command : DisplayCommand)
    → final (execute env c command.kind command.params).1 ≡ true
unfolding execute
execute-final env c command = ground arith

after_complete-store :
    (env : Env) (c : Controller) (command : DisplayCommand) (first : CommandResult) (s : Store)
    (o : Option LedgerRecord)
    → (after_complete env c command first (s, o)).0.store ≡ s
after_complete-store env c command first s none = refl
after_complete-store env c command first s (some r) = refl

-- The ledger after a command has run is the one that `complete` leaves.
pub run_command-store :
    (env : Env) (c : Controller) (command : DisplayCommand) (first : CommandResult)
    → let (c', status, code) = execute env c command.kind command.params in
      (run_command env c command first).0.store
      ≡ (complete env.now env.second_write command.command_id status code c.store).0
unfolding run_command
run_command-store env c command first =
    let (c', status, code) = execute env c command.kind command.params in
    let (s, o) = complete env.now env.second_write command.command_id status code c'.store in
    after_complete-store env c' command first s o
    ∙ ap (λ t. (complete env.now env.second_write command.command_id status code t).0)
        (execute-store env c command)

run_command-Keeps :
    (env : Env) (c : Controller) (command : DisplayCommand) (first : CommandResult)
    → Keeps c.store (run_command env c command first).0.store
run_command-Keeps env c command first =
    let (c', status, code) = execute env c command.kind command.params in
    subst (Keeps c.store) (sym (run_command-store env c command first))
      (complete-Keeps env.now env.second_write command.command_id status code c.store)

Keeps-refl : (s : Store) → Keeps s s
Keeps-refl s = record { high_sequence = refl; count = refl; known = λ _. refl }

pub after_accept-Keeps :
    (env : Env) (c : Controller) (command : DisplayCommand) (s : Store) (a : Acceptance)
    → Keeps s (after_accept env c command (s, a)).0.store
unfolding after_accept
after_accept-Keeps env c command s a =
    ground
      (arith, Keeps-refl s, run_command-Keeps env (record c { store = s }) command a.item.result)

abbrev Known : String → Store → Type 0
Known id s = is_some (find id s.state.records) ≡ true

-- A command whose id the ledger knows changes nothing; its stored result is the answer.
pub handle-known :
    (env : Env) (c : Controller) (command : DisplayCommand) (r : LedgerRecord)
    → find command.command_id c.store.state.records ≡ some r
    → handle env c command ≡ (c, r.result ∷ [])
unfolding handle lookup
handle-known env c command r h = ground arith
