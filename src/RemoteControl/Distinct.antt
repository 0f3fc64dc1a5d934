-- ===== src/RemoteControl/Distinct.antt =====
-- The ids in the ledger of internal/remotecontrol/store.go, over every call on the controller.
use homepi_mon.Common.{
  ℕ, zero, suc, ◌≡◌, ◌≢◌, refl, sym, subst, String, Bool, false, inl, inr, List, [], ◌∷◌, ◌++◌,
  Option, none, some, arith, Bool-cases, Option-cases, str_eq, eq_iff, drop, Result, ok, err, leb,
}
use homepi_mon.Protocol.Enums.{CommandStatus, executed, rejected}
use homepi_mon.Protocol.Command.{DisplayCommand, CommandResult, validate_command}
use homepi_mon.Protocol.Snapshot.{MetricSnapshot}
use homepi_mon.RemoteControl.Store.{
  Store, LedgerRecord, Acceptance, lookup, find, accept, reject, complete, append_record, record_of,
  late_record, accepted_record, pending_refreshes,
}
use homepi_mon.RemoteControl.Ledger.{accept-new, reject-new}
use homepi_mon.RemoteControl.Execution.{run_command-store}
use homepi_mon.RemoteControl.Bounds.{Event, handles, applies, notices, after_event}
use homepi_mon.RemoteControl.Refresh.{IsDistinct, complete-Completes}
use homepi_mon.RemoteControl.Controller.{
  Env, Controller, execute, run_command, handle, handle_new, handle_found, after_accept,
  rejection_status, advanced, complete_refreshes, add_completed, snapshot_applied, notice_at,
}

find-behind :
    (id : String) (rs : List LedgerRecord) (r : LedgerRecord)
    → find id rs ≡ none
    → str_eq r.command_id id ≡ false
    → find id (rs ++ r ∷ []) ≡ none
unfolding find
find-behind id [] r h d = rw d refl
find-behind id (x ∷ rs) r h d = ground (arith, find-behind id rs r)

apart :
    (id : String) (rs : List LedgerRecord) (x : LedgerRecord)
    → find id (x ∷ rs) ≡ none
    → (x.command_id ≢ id) × (find id rs ≡ none)
unfolding find
apart id rs x h = ground (arith, eq_iff x.command_id id)

append-IsDistinct :
    (rs : List LedgerRecord) (r : LedgerRecord)
    → IsDistinct rs
    → find r.command_id rs ≡ none
    → IsDistinct (rs ++ r ∷ [])
unfolding find
append-IsDistinct [] r d h = (refl, tt)
append-IsDistinct (x ∷ rs) r d h =
    let (other, absent) = apart r.command_id rs x h in
    (
      find-behind x.command_id rs r d.0 (ground (arith, other, eq_iff r.command_id x.command_id)),
      append-IsDistinct rs r d.1 absent,
    )

drop-IsDistinct : (n : ℕ) (rs : List LedgerRecord) → IsDistinct rs → IsDistinct (drop n rs)
drop-IsDistinct zero rs d = d
drop-IsDistinct (suc n) [] d = tt
drop-IsDistinct (suc n) (r ∷ rs) d = drop-IsDistinct n rs d.1

append_record-IsDistinct :
    (r : LedgerRecord) (rs : List LedgerRecord)
    → IsDistinct rs
    → find r.command_id rs ≡ none
    → IsDistinct (append_record r rs)
unfolding append_record
append_record-IsDistinct r rs d h = drop-IsDistinct _ (rs ++ r ∷ []) (append-IsDistinct rs r d h)

-- The records of a controller's ledger.
abbrev ledger : Controller → List LedgerRecord
ledger c = c.store.state.records

reject-IsDistinct :
    (now : ℕ) (w : Bool) (c : DisplayCommand) (status : CommandStatus) (code : String) (s : Store)
    → find c.command_id s.state.records ≡ none
    → IsDistinct s.state.records
    → IsDistinct (reject now w c status code s).0.state.records
unfolding record_of
reject-IsDistinct now w c status code s h d =
    rw (reject-new now w c status code s h).0 (append_record-IsDistinct _ s.state.records d h)

accept-IsDistinct :
    (now : ℕ) (w : Bool) (c : DisplayCommand) (epoch : String) (version : ℕ) (s : Store)
    → find c.command_id s.state.records ≡ none
    → IsDistinct s.state.records
    → IsDistinct (accept now w c epoch version s).0.state.records
unfolding late_record accepted_record
accept-IsDistinct now w c epoch version s h d =
    rw (accept-new now w c epoch version s h).0
      (elim (Bool-cases (leb c.sequence s.state.high_sequence)) [
        | inl late ↦ rw late (append_record-IsDistinct _ s.state.records d h)
        | inr next ↦ rw next (append_record-IsDistinct _ s.state.records d h)
      ])

run_command-IsDistinct :
    (env : Env) (c : Controller) (command : DisplayCommand) (first : CommandResult)
    → IsDistinct (ledger c)
    → IsDistinct (ledger (run_command env c command first).0)
run_command-IsDistinct env c command first d =
    let (c', status, code) = execute env c command.kind command.params in
    subst (λ (s : Store). IsDistinct s.state.records) (sym (run_command-store env c command first))
      (complete-Completes env.now env.second_write command.command_id status code c.store
        d).distinct

after_accept-IsDistinct :
    (env : Env) (c : Controller) (command : DisplayCommand) (s : Store) (a : Acceptance)
    → IsDistinct s.state.records
    → IsDistinct (ledger (after_accept env c command (s, a)).0)
unfolding after_accept
after_accept-IsDistinct env c command s a d =
    ground (arith, run_command-IsDistinct env (record c { store = s }) command a.item.result d)

handle_new-IsDistinct :
    (env : Env) (c : Controller) (command : DisplayCommand) (v : Result String (Unit {0}))
    → find command.command_id (ledger c) ≡ none
    → IsDistinct (ledger c)
    → IsDistinct (ledger (handle_new env c command v).0)
handle_new-IsDistinct env c command (err code) h d =
    reject-IsDistinct env.now env.first_write command (rejection_status code) code c.store h d
handle_new-IsDistinct env c command (ok _) h d =
    elim (Bool-cases (str_eq command.device_id c.device_id)) [
      | inl mine ↦
          let (s, a) = accept env.now env.first_write command c.last_epoch c.last_version c.store in
          simp mine (
            after_accept-IsDistinct env c command s a (
              accept-IsDistinct env.now env.first_write command c.last_epoch c.last_version c.store
                h d))
      | inr other ↦
          simp other
            (reject-IsDistinct env.now env.first_write command rejected "wrong_target" c.store h d)
    ]

handle-IsDistinct :
    (env : Env) (c : Controller) (command : DisplayCommand)
    → IsDistinct (ledger c)
    → IsDistinct (ledger (handle env c command).0)
unfolding handle lookup
handle-IsDistinct env c command d = elim (Option-cases (find command.command_id (ledger c))) [
  | inl new ↦
      simp new (handle_new-IsDistinct env c command (validate_command command env.now) new d)
  | inr (r, old) ↦ simp (old, handle_found) d
]

add_completed-records :
    (o : Store × Option LedgerRecord) (rest : Store → Store × List CommandResult)
    → (add_completed o rest).0 ≡ (rest o.0).0
add_completed-records (t, none) rest = refl
add_completed-records (t, some r) rest = refl

complete_refreshes-IsDistinct :
    (now : ℕ) (writes : String → Bool) (snapshot : MetricSnapshot) (rs : List LedgerRecord)
    (t : Store)
    → IsDistinct t.state.records
    → IsDistinct (complete_refreshes now writes snapshot rs t).0.state.records
unfolding complete_refreshes
complete_refreshes-IsDistinct now writes snapshot [] t d = d
complete_refreshes-IsDistinct now writes snapshot (r ∷ rs) t d =
    elim (Bool-cases (advanced snapshot r)) [
      | inl new ↦
          let id = r.command_id in
          let o = complete now (writes id) id executed "" t in
          simp new (
            subst (λ (s : Store). IsDistinct s.state.records)
              (sym (add_completed-records o (complete_refreshes now writes snapshot rs)))
              (complete_refreshes-IsDistinct now writes snapshot rs o.0
                (complete-Completes now (writes id) id executed "" t d).distinct))
      | inr old ↦ simp old (complete_refreshes-IsDistinct now writes snapshot rs t d)
    ]

-- Every call on the controller keeps the ids in the ledger distinct.
pub after_event-IsDistinct :
    (c : Controller) (e : Event)
    → IsDistinct c.store.state.records
    → IsDistinct (after_event c e).store.state.records
unfolding snapshot_applied notice_at
after_event-IsDistinct c (handles env command) d = handle-IsDistinct env c command d
after_event-IsDistinct c (applies now writes none) d = d
after_event-IsDistinct c (applies now writes (some snapshot)) d =
    complete_refreshes-IsDistinct now writes snapshot (pending_refreshes (ledger c)) c.store d
after_event-IsDistinct c (notices now) d = d
