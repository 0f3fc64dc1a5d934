-- ===== src/RemoteControl/Bounds.antt =====
-- The size of the ledger and its highest number, over every call on the Controller of
-- internal/remotecontrol/controller.go.
use homepi_mon.Common.{
  ℕ, ◌≤◌, ◌≡◌, String, Bool, inl, inr, List, [], ◌∷◌, Option, none, some, arith, Bool-cases,
  Option-cases, str_eq, Result, ok, err,
}
use homepi_mon.Protocol.Enums.{CommandStatus, executed, rejected}
use homepi_mon.Protocol.Command.{DisplayCommand, CommandResult, validate_command}
use homepi_mon.Protocol.Snapshot.{MetricSnapshot}
use homepi_mon.RemoteControl.Store.{
  Store, LedgerRecord, lookup, find, accept, reject, complete, pending_refreshes,
}
use homepi_mon.RemoteControl.Ledger.{
  IsBounded, Keeps, length-append_record, accept-new, reject-new, complete-Keeps,
}
use homepi_mon.RemoteControl.Execution.{after_accept-Keeps}
use homepi_mon.RemoteControl.Controller.{
  Env, Controller, handle, handle_new, handle_found, rejection_status, advanced, complete_refreshes,
  add_completed, snapshot_applied, notice_at,
}

-- The ledger is within its bound, and its highest number has not gone down.
pub record Grows (s t : Store) : Type 0 where
  pub bounded : IsBounded t
  pub high : s.state.high_sequence ≤ t.state.high_sequence

Grows-refl : (s : Store) → IsBounded s → Grows s s
Grows-refl s b = record { bounded = b; high = omega arith }

Keeps-Grows : (s t u : Store) → Grows s t → Keeps t u → Grows s u
Keeps-Grows s t u g k = record {
  bounded = omega (arith, g.bounded, k.count);
  high = omega (arith, g.high, k.high_sequence);
}

reject-Grows :
    (now : ℕ) (w : Bool) (c : DisplayCommand) (status : CommandStatus) (code : String) (s : Store)
    → find c.command_id s.state.records ≡ none
    → Grows s (reject now w c status code s).0
reject-Grows now w c status code s h =
    let (state, item) = reject-new now w c status code s h in
    record {
      bounded = rw state (length-append_record _ s.state.records);
      high = rw state (omega arith);
    }

accept-Grows :
    (now : ℕ) (w : Bool) (c : DisplayCommand) (epoch : String) (version : ℕ) (s : Store)
    → find c.command_id s.state.records ≡ none
    → Grows s (accept now w c epoch version s).0
accept-Grows now w c epoch version s h =
    let state = (accept-new now w c epoch version s h).0 in
    record {
      bounded = rw state (length-append_record _ s.state.records);
      high = rw state (ground arith);
    }

handle_new-Grows :
    (env : Env) (c : Controller) (command : DisplayCommand) (v : Result String (Unit {0}))
    → find command.command_id c.store.state.records ≡ none
    → Grows c.store (handle_new env c command v).0.store
handle_new-Grows env c command (err code) h =
    reject-Grows env.now env.first_write command (rejection_status code) code c.store h
handle_new-Grows env c command (ok _) h = elim (Bool-cases (str_eq command.device_id c.device_id)) [
  | inl mine ↦
      let (s, a) = accept env.now env.first_write command c.last_epoch c.last_version c.store in
      simp mine (
        Keeps-Grows c.store s _
          (accept-Grows env.now env.first_write command c.last_epoch c.last_version c.store h)
          (after_accept-Keeps env c command s a))
  | inr other ↦
      simp other (reject-Grows env.now env.first_write command rejected "wrong_target" c.store h)
]

handle-Grows :
    (env : Env) (c : Controller) (command : DisplayCommand)
    → IsBounded c.store
    → Grows c.store (handle env c command).0.store
unfolding handle lookup
handle-Grows env c command b = elim (Option-cases (find command.command_id c.store.state.records)) [
  | inl new ↦ simp new (handle_new-Grows env c command (validate_command command env.now) new)
  | inr (r, old) ↦ simp (old, handle_found) (Grows-refl c.store b)
]

add_completed-Grows :
    (s : Store) (o : Store × Option LedgerRecord) (rest : Store → Store × List CommandResult)
    → Grows s o.0
    → ((t : Store) → Grows s t → Grows s (rest t).0)
    → Grows s (add_completed o rest).0
add_completed-Grows s (t, none) rest g k = k t g
add_completed-Grows s (t, some r) rest g k = k t g

complete_refreshes-Grows :
    (now : ℕ) (writes : String → Bool) (snapshot : MetricSnapshot) (rs : List LedgerRecord)
    (s t : Store)
    → Grows s t
    → Grows s (complete_refreshes now writes snapshot rs t).0
unfolding complete_refreshes
complete_refreshes-Grows now writes snapshot [] s t g = g
complete_refreshes-Grows now writes snapshot (r ∷ rs) s t g =
    elim (Bool-cases (advanced snapshot r)) [
      | inl later ↦ simp later (
          add_completed-Grows s (complete now (writes r.command_id) r.command_id executed "" t)
            (complete_refreshes now writes snapshot rs)
            (Keeps-Grows s t _ g
              (complete-Keeps now (writes r.command_id) r.command_id executed "" t))
            (λ u k. complete_refreshes-Grows now writes snapshot rs s u k))
      | inr same ↦ simp same (complete_refreshes-Grows now writes snapshot rs s t g)
    ]

-- Every call on the controller.
pub data Event : Type 0 where
  handles : Env → DisplayCommand → Event
  applies : ℕ → (String → Bool) → Option MetricSnapshot → Event
  notices : ℕ → Event

abbrev pub after_event : Controller → Event → Controller
after_event c (handles env command) = (handle env c command).0
after_event c (applies now writes snapshot) = (snapshot_applied now writes c snapshot).0
after_event c (notices now) = (notice_at now c).0

-- Every call keeps the ledger at 256 records at most, and never lowers its highest accepted number,
-- whatever writes of the file fail.
pub after_event-Grows :
    (c : Controller) (e : Event) → IsBounded c.store → Grows c.store (after_event c e).store
unfolding snapshot_applied notice_at
after_event-Grows c (handles env command) b = handle-Grows env c command b
after_event-Grows c (applies now writes none) b = Grows-refl c.store b
after_event-Grows c (applies now writes (some snapshot)) b =
    complete_refreshes-Grows now writes snapshot (pending_refreshes c.store.state.records) c.store
      c.store (Grows-refl c.store b)
after_event-Grows c (notices now) b = Grows-refl c.store b
