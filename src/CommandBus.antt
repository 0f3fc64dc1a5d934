-- ===== src/CommandBus.antt =====
-- internal/commandbus/bus.go: the node's bounded command queue with its result audit. The Bus is its
-- in-memory state, the state file on disk and the devices that wait for a signal. A call runs under
-- the mutex, so it is one step; it takes what the system answers it in an `Env`.
pub mod Entries
pub mod Lifecycle
pub mod Steps
pub mod Counts
pub mod Bounds
pub mod Open
pub mod Persist
pub mod Delivery
pub mod Expiry
pub mod Sequence
pub mod Acceptance
mod Tests
use homepi_mon.Common.{
  ℕ, suc, ◌+◌, ◌*◌, ◌^◌, ◌%◌, String, Bool, true, false, not, ◌&&◌, List, [], ◌∷◌, ◌++◌, Option,
  none, some, leb, ◌==◌, str_eq, text_mem, if◌then◌else◌, Result, ok, err,
}
use homepi_mon.Common.Int.{ℤ, pos, pos_part}
use homepi_mon.Common.Table.{Table, lookup, insert}
use homepi_mon.Common.Time.{second}
use homepi_mon.Protocol.Enums.{published, accepted, final, is_accepted}
use homepi_mon.Protocol.Command.{
  CommandRequest, CommandResult, DisplayCommand, validate_command_request,
}
use Entries.{
  Entry, Env, pending_count, drop_oldest_normal, expire_all, trim, redact_params, max_pending,
}

pub record StateFile : Type 0 where
  pub sequence : ℕ  -- uint64
  pub entries : List Entry

-- `notify` holds the devices that have subscribed, each with whether a signal waits in its channel.
pub record Bus : Type 0 where
  pub state : StateFile
  pub disk : StateFile
  pub notify : Table Bool

pub data BusError : Type 0 where
  invalid : String → BusError
  queue_full no_command_id not_persisted device_mismatch sequence_mismatch : BusError
  invalid_status not_found : BusError

abbrev pub uint64 : ℕ → ℕ
uint64 n = n % 2 ^ 64

abbrev raise : String → Option Bool → Table Bool → Table Bool
raise device none t = t
raise device (some _) t = insert device true t

-- `signalLocked`: a send into the channel of one place, which drops the signal if one waits.
unfoldable pub signal : String → Table Bool → Table Bool
signal device t = raise device (lookup device t) t

-- `dropOldestNormalLocked`, where the queue is full.
unfoldable pub make_room : Env → StateFile → Option StateFile
make_room env s =
    if leb max_pending (pending_count s.entries)
    then elim (drop_oldest_normal env s.entries) [
      | none ↦ none
      | some es ↦ some (record s { entries = es })
    ]
    else some s

-- The entry that `Publish` appends.
unfoldable pub new_entry : Env → String → String → CommandRequest → ℕ → Entry
new_entry env id device request sequence = record {
  command = record {
    schema_major = pos 1;
    command_id = id;
    device_id = device;
    kind = request.kind;
    params = request.params;
    issued_at = env.now;
    expires_at = env.now + pos_part request.ttl_seconds * second;
    priority = request.priority;
    sequence = sequence;
  };
  result = record {
    command_id = id;
    sequence = sequence;
    status = published;
    code = "";
    received_at = env.now;
    completed_at = none;
    duration_ms = pos 0;
  };
}

-- From the point where the queue has room and the command its id.
unfoldable pub append_entry :
    Env → Bus → StateFile → String → String → CommandRequest → Bus × Result BusError Entry
append_entry env b room id device request =
    let sequence = uint64 (room.sequence + 1) in
    let entry = new_entry env id device request sequence in
    let next : StateFile = record {
      sequence = sequence;
      entries = trim (room.entries ++ entry ∷ []);
    } in
    if env.persists
    then (record { state = next; disk = next; notify = signal device b.notify }, ok entry)
    else (b, err not_persisted)

-- Without a new id the state keeps the entry that made room: it is not put back.
abbrev pub publish_with :
    Env → Bus → StateFile → String → CommandRequest → Option String → Bus × Result BusError Entry
publish_with env b room device request none = (record b { state = room }, err no_command_id)
publish_with env b room device request (some id) = append_entry env b room id device request

abbrev pub publish_into :
    Env → Bus → String → CommandRequest → Option StateFile → Bus × Result BusError Entry
publish_into env b device request none = (b, err queue_full)
publish_into env b device request (some room) = publish_with env b room device request env.fresh_id

abbrev pub publish_checked :
    Env → Bus → String → CommandRequest → Result String (Unit {0}) → Bus × Result BusError Entry
publish_checked env b device request (err code) = (b, err (invalid code))
publish_checked env b device request (ok _) =
    publish_into env b device request (make_room env b.state)

unfoldable pub publish : Env → Bus → String → CommandRequest → Bus × Result BusError Entry
publish env b device request =
    publish_checked env b device request (validate_command_request request)

-- The commands that `Pending` hands to the stream of a device: not final, and not among those sent.
unfoldable pub deliverable : String → List String → List Entry → List DisplayCommand
deliverable device sent [] = []
deliverable device sent (e ∷ es) =
    let rest = deliverable device sent es in
    if str_eq e.command.device_id device
      && not (final e.result.status)
      && not (text_mem e.command.command_id sent)
    then e.command ∷ rest
    else rest

-- What `Pending` and `Get` share: expiry, then a write of the file if it changed anything.
unfoldable pub expired_state : Env → Bus → StateFile × Bool
expired_state env b =
    let (es, changed) = expire_all env b.state.entries in (record b.state { entries = es }, changed)

unfoldable pub pending :
    Env → Bus → String → List String → Bus × Result BusError (List DisplayCommand)
unfolding expired_state
pending env b device sent =
    let (s, changed) = expired_state env b in
    let commands = deliverable device sent s.entries in
    if not changed
    then (record b { state = s }, ok commands)
    else if env.persists
    then (record b { state = s; disk = s }, ok commands)
    else (b, err not_persisted)

unfoldable pub find : String → List Entry → Option Entry
find id [] = none
find id (e ∷ es) = if str_eq e.command.command_id id then some e else find id es

-- `Get`. For an unknown id it returns before the write: what expired stays in memory alone.
unfoldable pub get : Env → Bus → String → Bus × Result BusError Entry
unfolding expired_state
get env b id =
    let (s, changed) = expired_state env b in
    elim (find id s.entries) [
      | none ↦ (record b { state = s }, err not_found)
      | some e ↦
          if not changed
          then (record b { state = s }, ok e)
          else if env.persists
          then (record b { state = s; disk = s }, ok e)
          else (b, err not_persisted)
    ]

-- What `Record` does to the entry that carries the result's id.
pub data Recording : Type 0 where
  missing : Recording
  refused : BusError → Recording
  unchanged : Entry → Recording
  recorded : Entry → List Entry → Bool → Recording

-- The result as it is stored: `ReceivedAt` is filled in, and a final one redacts the parameters.
unfoldable pub store_result : Env → CommandResult → Entry → Entry
store_result env r e =
    let received = if r.received_at == 0 then env.now else r.received_at in
    let params = if final r.status then redact_params env e.command else e.command.params in
    record {
      command = record e.command { params = params };
      result = record r { received_at = received };
    }

unfoldable pub record_entry : Env → String → CommandResult → Entry → List Entry → Recording
record_entry env device r e es =
    if not (str_eq e.command.device_id device)
    then refused device_mismatch
    else if not (r.sequence == e.command.sequence)
    then refused sequence_mismatch
    else if final e.result.status
    then unchanged e
    else if not (is_accepted r.status) && not (final r.status)
    then refused invalid_status
    else let e' = store_result env r e in
      recorded e' (e' ∷ es) (is_accepted r.status && not (is_accepted e.result.status))

abbrev pub behind : Entry → Recording → Recording
behind e (recorded e' es first) = recorded e' (e ∷ es) first
behind e r = r

unfoldable pub record_in : Env → String → CommandResult → List Entry → Recording
record_in env device r [] = missing
record_in env device r (e ∷ es) =
    let rest = record_in env device r es in
    if str_eq e.command.command_id r.command_id
    then record_entry env device r e es
    else behind e rest

abbrev pub record_outcome : Env → Bus → Recording → Bus × Result BusError (Entry × Bool)
record_outcome env b missing = (b, err not_found)
record_outcome env b (refused e) = (b, err e)
record_outcome env b (unchanged e) = (b, ok (e, false))
record_outcome env b (recorded e es first) =
    let s : StateFile = record { sequence = b.state.sequence; entries = trim es } in
    if env.persists
    then (
      record { state = s; disk = s; notify = signal e.command.device_id b.notify },
      ok (e, first),
    )
    else (b, err not_persisted)

unfoldable pub record_result :
    Env → Bus → String → CommandResult → Bus × Result BusError (Entry × Bool)
record_result env b device r = record_outcome env b (record_in env device r b.state.entries)

abbrev add_channel : String → Option Bool → Table Bool → Table Bool
add_channel device none t = insert device false t
add_channel device (some _) t = t

unfoldable pub subscribe : Bus → String → Bus
subscribe b device = record b { notify = add_channel device (lookup device b.notify) b.notify }

-- Every call on the bus.
pub data Call : Type 0 where
  publishes : String → CommandRequest → Call
  reads : String → List String → Call
  records : String → CommandResult → Call
  gets : String → Call
  subscribes : String → Call

unfoldable pub step : Env → Bus → Call → Bus
step env b (publishes device r) = (publish env b device r).0
step env b (reads device sent) = (pending env b device sent).0
step env b (records device r) = (record_result env b device r).0
step env b (gets id) = (get env b id).0
step env b (subscribes device) = subscribe b device
