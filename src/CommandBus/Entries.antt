-- ===== src/CommandBus/Entries.antt =====
-- The entries of the queue, and the passes of bus.go over them.
use homepi_mon.Common.{
  ℕ, suc, ◌-◌, String, Bool, true, false, ◌&&◌, ◌||◌, List, [], ◌∷◌, Option, none, some, leb,
  if◌then◌else◌, len,
}
use homepi_mon.Common.Int.{ℤ, pos, leb_ℤ}
use homepi_mon.Common.Time.{sub_time, milliseconds}
use homepi_mon.Protocol.Enums.{
  CommandStatus, expired, failed, final, is_accepted, is_published, is_normal, is_message,
}
use homepi_mon.Protocol.Params.{RawMessage, object, str, num, MessageCommandParams, decode_message}
use homepi_mon.Protocol.Command.{DisplayCommand, CommandResult, max_command_ttl}

pub record Entry : Type 0 where
  pub command : DisplayCommand
  pub result : CommandResult

-- What the system answers one call: the clock, read once; whether the state file can be replaced;
-- the UUID that the random source yields, if it does; and SHA-256 in hexadecimal.
pub record Env : Type 0 where
  pub now : ℕ
  pub persists : Bool
  pub fresh_id : Option String
  pub sha256_hex : String → String

abbrev pub max_pending : ℕ
max_pending = 64

abbrev pub max_results : ℕ
max_results = 256

abbrev pub is_final : Entry → Bool
is_final e = final e.result.status

unfoldable pub pending_count : List Entry → ℕ
pending_count [] = 0
pending_count (e ∷ es) = let n = pending_count es in if is_final e then n else suc n

unfoldable pub finals_count : List Entry → ℕ
finals_count [] = 0
finals_count (e ∷ es) = let n = finals_count es in if is_final e then suc n else n

abbrev pub redacted_message : Env → Option MessageCommandParams → RawMessage
redacted_message env none = object []
redacted_message env (some p) = object (
    ("duration_seconds", num p.duration_seconds)
    ∷ ("severity", str p.severity)
    ∷ ("text_length", num (pos (len p.text)))
    ∷ ("text_sha256", str (env.sha256_hex p.text))
    ∷ [])

-- A message keeps its length and its hash in place of its text; other parameters are dropped.
unfoldable pub redact_params : Env → DisplayCommand → RawMessage
redact_params env c =
    if is_message c.kind then redacted_message env (decode_message c.params) else object []

-- A final result that the node itself gives, with its code and duration.
unfoldable pub finish : Env → CommandStatus → String → ℤ → Entry → Entry
finish env status code duration e = record {
  command = record e.command { params = redact_params env e.command };
  result = record e.result {
    status = status;
    code = code;
    completed_at = some env.now;
    duration_ms = duration;
  };
}

unfoldable pub overflow : Env → Entry → Entry
unfolding finish
overflow env e = finish env failed "overflow" e.result.duration_ms e

abbrev pub behind_kept : Entry → Option (List Entry) → Option (List Entry)
behind_kept e none = none
behind_kept e (some es) = some (e ∷ es)

-- The oldest command of normal priority that no display has accepted fails as an overflow.
unfoldable pub drop_oldest_normal : Env → List Entry → Option (List Entry)
unfolding overflow
drop_oldest_normal env [] = none
drop_oldest_normal env (e ∷ es) =
    let rest = drop_oldest_normal env es in
    if is_normal e.command.priority && is_published e.result.status
    then some (overflow env e ∷ es)
    else behind_kept e rest

abbrev pub elapsed : Env → Entry → ℤ
elapsed env e = milliseconds (sub_time env.now e.result.received_at)

-- The body of the loop of `expireLocked`.
unfoldable pub expire : Env → Entry → Entry × Bool
unfolding finish
expire env e =
    if is_final e
    then (e, false)
    else if is_published e.result.status && leb e.command.expires_at env.now
    then (finish env expired "expired" (elapsed env e) e, true)
    else if is_accepted e.result.status
        && leb_ℤ (pos max_command_ttl) (sub_time env.now e.result.received_at)
    then (finish env failed "execution_timeout" (elapsed env e) e, true)
    else (e, false)

unfoldable pub expire_all : Env → List Entry → List Entry × Bool
unfolding expire
expire_all env [] = ([], false)
expire_all env (e ∷ es) =
    let (e', here) = expire env e in
    let (es', later) = expire_all env es in (e' ∷ es', here || later)

unfoldable pub remove_first_final : List Entry → List Entry
remove_first_final [] = []
remove_first_final (e ∷ es) =
    let rest = remove_first_final es in if is_final e then es else e ∷ rest

-- The loop of `trimLocked`: one round for each final entry above the limit.
unfoldable pub trim_rounds : ℕ → List Entry → List Entry
unfolding remove_first_final
trim_rounds ℕ.zero es = es
trim_rounds (suc n) es = trim_rounds n (remove_first_final es)

unfoldable pub trim : List Entry → List Entry
unfolding trim_rounds
trim es = trim_rounds (finals_count es - max_results) es
