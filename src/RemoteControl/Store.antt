-- ===== src/RemoteControl/Store.antt =====
-- internal/remotecontrol/store.go: the ledger of the commands that a display has seen, with their
-- results. `disk` is what the ledger's file holds; a call takes whether the file can be replaced.
use homepi_mon.Common.{
  ℕ, ◌-◌, String, Bool, true, false, not, ◌&&◌, List, [], ◌∷◌, ◌++◌, Option, none, some, leb, ltb,
  str_eq, length, drop, if◌then◌else◌,
}
use homepi_mon.Common.Int.{pos}
use homepi_mon.Common.Time.{sub_time, milliseconds}
use homepi_mon.Protocol.Enums.{
  CommandKind, CommandStatus, accepted, rejected, failed, final, is_accepted, is_refresh,
}
use homepi_mon.Protocol.Command.{DisplayCommand, CommandResult}

abbrev pub max_records : ℕ
max_records = 256

pub record LedgerRecord : Type 0 where
  pub command_id : String
  pub device_id : String
  pub sequence : ℕ  -- uint64
  pub kind : CommandKind
  pub issued_at : ℕ
  pub result : CommandResult
  pub pending_refresh : Bool
  pub baseline_epoch : String
  pub baseline_version : ℕ  -- uint64

pub record StoreState : Type 0 where
  pub high_sequence : ℕ  -- uint64
  pub records : List LedgerRecord

pub record Store : Type 0 where
  pub state : StoreState
  pub disk : StoreState

unfoldable pub find : String → List LedgerRecord → Option LedgerRecord
find id [] = none
find id (r ∷ rs) = if str_eq r.command_id id then some r else find id rs

unfoldable pub lookup : String → Store → Option LedgerRecord
lookup id s = find id s.state.records

-- `persistLocked`: the store, and whether the file was written.
unfoldable pub persist : Bool → Store → Store × Bool
persist true s = (record s { disk = s.state }, true)
persist false s = (s, false)

-- `appendLocked`: the newest 256 records stay.
unfoldable pub append_record : LedgerRecord → List LedgerRecord → List LedgerRecord
append_record r rs = let all = rs ++ r ∷ [] in drop (length all - max_records) all

-- A record of a command, with a result received at `now`.
unfoldable pub record_of :
    ℕ → DisplayCommand → CommandStatus → String → Option ℕ → String → ℕ → LedgerRecord
record_of now c status code completed epoch version = record {
  command_id = c.command_id;
  device_id = c.device_id;
  sequence = c.sequence;
  kind = c.kind;
  issued_at = c.issued_at;
  result = record {
    command_id = c.command_id;
    sequence = c.sequence;
    status = status;
    code = code;
    received_at = now;
    completed_at = completed;
    duration_ms = pos 0;
  };
  pending_refresh = false;
  baseline_epoch = epoch;
  baseline_version = version;
}

-- What `accept` returns: the record, whether it was there before, and whether the file was written.
pub record Acceptance : Type 0 where
  pub item : LedgerRecord
  pub duplicate : Bool
  pub wrote : Bool

abbrev pub accepted_with : LedgerRecord → Store × Bool → Store × Acceptance
accepted_with item (s, wrote) = (s, record { item = item; duplicate = false; wrote = wrote })

-- The record of a command whose number is not above the highest.
unfoldable pub late_record : ℕ → DisplayCommand → String → ℕ → LedgerRecord
unfolding record_of
late_record now c epoch version = record_of now c rejected "out_of_order" (some now) epoch version

unfoldable pub accepted_record : ℕ → DisplayCommand → String → ℕ → LedgerRecord
unfolding record_of
accepted_record now c epoch version = record (record_of now c accepted "" none epoch version) {
  pending_refresh = is_refresh c.kind;
}

-- The state with one more record under a high sequence number.
unfoldable pub with_record : LedgerRecord → ℕ → Store → Store
with_record item high s = record s {
  state = record { high_sequence = high; records = append_record item s.state.records };
}

unfoldable pub accept_new : ℕ → Bool → DisplayCommand → String → ℕ → Store → Store × Acceptance
unfolding with_record
accept_new now writes c epoch version s =
    let late = late_record now c epoch version in
    let item = accepted_record now c epoch version in
    if leb c.sequence s.state.high_sequence
    then accepted_with late (persist writes (with_record late s.state.high_sequence s))
    else accepted_with item (persist writes (with_record item c.sequence s))

abbrev pub accept_found :
    Option LedgerRecord → Store → (Store → Store × Acceptance) → Store × Acceptance
accept_found none s new = new s
accept_found (some item) s new = (s, record { item = item; duplicate = true; wrote = true })

unfoldable pub accept : ℕ → Bool → DisplayCommand → String → ℕ → Store → Store × Acceptance
accept now writes c epoch version s =
    accept_found (find c.command_id s.state.records) s (accept_new now writes c epoch version)

abbrev pub reject_found : Option LedgerRecord → Store → Store × LedgerRecord → Store × LedgerRecord
reject_found none s new = new
reject_found (some item) s new = (s, item)

-- `reject`: a failed write is only logged, so the record is the answer either way.
unfoldable pub reject :
    ℕ → Bool → DisplayCommand → CommandStatus → String → Store → Store × LedgerRecord
unfolding record_of with_record
reject now writes c status code s =
    let item = record_of now c status code (some now) "" 0 in
    reject_found (find c.command_id s.state.records) s
      ((persist writes (with_record item s.state.high_sequence s)).0, item)

unfoldable pub completed_record : ℕ → CommandStatus → String → LedgerRecord → LedgerRecord
completed_record now status code r = record r {
  pending_refresh = false;
  result = record r.result {
    status = status;
    code = code;
    completed_at = some now;
    duration_ms = milliseconds (sub_time now r.result.received_at);
  };
}

unfoldable pub complete_in :
    (LedgerRecord → LedgerRecord) → String → List LedgerRecord → List LedgerRecord
complete_in f id [] = []
complete_in f id (r ∷ rs) =
    let rest = complete_in f id rs in if str_eq r.command_id id then f r ∷ rs else r ∷ rest

abbrev pub complete_found :
    Bool
    → (LedgerRecord → LedgerRecord)
    → String
    → Store
    → Option LedgerRecord
    → Store × Option LedgerRecord
complete_found writes f id s none = (s, none)
complete_found writes f id s (some r) =
    if final r.result.status
    then (s, some r)
    else let (s', wrote) =
        persist writes
          (record s { state = record s.state { records = complete_in f id s.state.records } }) in
      (s', if wrote then some (f r) else none)

-- `complete`: `none` is an error, of the write or because there is no such record.
unfoldable pub complete :
    ℕ → Bool → String → CommandStatus → String → Store → Store × Option LedgerRecord
complete now writes id status code s =
    complete_found writes (completed_record now status code) id s (find id s.state.records)

unfoldable pub pending_refreshes : List LedgerRecord → List LedgerRecord
pending_refreshes [] = []
pending_refreshes (r ∷ rs) =
    let rest = pending_refreshes rs in
    if r.pending_refresh && is_accepted r.result.status then r ∷ rest else rest

-- What the ledger's file holds when the display starts.
pub data StoredLedger : Type 0 where
  absent unreadable corrupt : StoredLedger
  holds : StoreState → StoredLedger

pub record FileSystem : Type 0 where
  pub makes_dir : Bool
  pub protects_dir : Bool
  pub protects_file : Bool
  pub renames : Bool
  pub persists : Bool

abbrev pub empty_ledger : StoreState
empty_ledger = record { high_sequence = 0; records = [] }

abbrev pub start_empty : FileSystem → Option Store
start_empty fs =
    if fs.persists then some (record { state = empty_ledger; disk = empty_ledger }) else none

abbrev pub quarantine : FileSystem → Option Store
quarantine fs = if fs.renames then start_empty fs else none

-- A command that was running when the display stopped.
abbrev pub is_interrupted : LedgerRecord → Bool
is_interrupted r = is_accepted r.result.status && not r.pending_refresh

unfoldable pub interrupt : ℕ → LedgerRecord → LedgerRecord
interrupt now r =
    if is_interrupted r
    then record r {
      result = record r.result {
        status = failed;
        code = "interrupted";
        completed_at = some now;
        duration_ms = milliseconds (sub_time now r.result.received_at);
      };
    }
    else r

unfoldable pub interrupt_all : ℕ → List LedgerRecord → List LedgerRecord × Bool
unfolding interrupt
interrupt_all now [] = ([], false)
interrupt_all now (r ∷ rs) =
    let (rs', changed) = interrupt_all now rs in
    (interrupt now r ∷ rs', if is_interrupted r then true else changed)

-- `openResultStore`; `none` is an error.
unfoldable pub open_store : FileSystem → ℕ → StoredLedger → Option Store
open_store fs now absent = if fs.makes_dir && fs.protects_dir then start_empty fs else none
open_store fs now unreadable = none
open_store fs now corrupt = if fs.makes_dir && fs.protects_dir then quarantine fs else none
open_store fs now (holds s) =
    let (rs, changed) = interrupt_all now s.records in
    let s' : StoreState = record s { records = rs } in
    if not (fs.makes_dir && fs.protects_dir)
    then none
    else if ltb max_records (length s.records)
    then quarantine fs
    else if changed
    then (if fs.persists then some (record { state = s'; disk = s' }) else none)
    else if fs.protects_file
    then some (record { state = s'; disk = s })
    else none
