-- ===== src/CommandBus/Persist.antt =====
-- The state file of internal/commandbus/bus.go against the state in memory.
use homepi_mon.Common.{
  ◌≡◌, refl, String, true, false, inl, inr, List, [], ◌∷◌, Option, none, some, arith, Bool-cases,
  Option-cases, ok, err, is_some, Result,
}
use homepi_mon.Protocol.Command.{CommandRequest, validate_command_request}
use homepi_mon.CommandBus.Entries.{Entry, Env, expire, expire_all}
use homepi_mon.CommandBus.{
  Bus, BusError, StateFile, not_persisted, no_command_id, Recording, missing, refused, unchanged,
  recorded, make_room, append_entry, publish, publish_checked, publish_into, publish_with, pending,
  find, get, record_in, record_outcome, record_result, subscribe, Call, publishes, reads, records,
  gets, subscribes, step,
}

abbrev pub InSync : Bus → Type 0
InSync b = b.disk ≡ b.state

-- The two calls that can leave the file behind: a publication for which the random source yields no
-- id, and a `Get` of an id that is not there.
abbrev pub Durable : Env → Bus → Call → Type 0
Durable env b (publishes device r) = is_some env.fresh_id ≡ true
Durable env b (gets id) = is_some (find id (expire_all env b.state.entries).0) ≡ true
Durable env b _ = Unit {0}

expire-unchanged : (env : Env) (e : Entry) → (expire env e).1 ≡ false → (expire env e).0 ≡ e
unfolding expire
expire-unchanged env e h = ground arith

pub expire_all-unchanged :
    (env : Env) (es : List Entry) → (expire_all env es).1 ≡ false → (expire_all env es).0 ≡ es
unfolding expire_all
expire_all-unchanged env [] h = refl
expire_all-unchanged env (e ∷ es) h =
    ground (arith, expire-unchanged env e, expire_all-unchanged env es)

append_entry-InSync :
    (env : Env) (b : Bus) (room : StateFile) (id device : String) (r : CommandRequest)
    → InSync b
    → InSync (append_entry env b room id device r).0
unfolding append_entry
append_entry-InSync env b room id device r h = elim (Bool-cases env.persists) [
  | inl wrote ↦ simp wrote
  | inr not_wrote ↦ simp not_wrote h
]

publish_into-InSync :
    (env : Env) (b : Bus) (device : String) (r : CommandRequest) (room : Option StateFile)
    → is_some env.fresh_id ≡ true
    → InSync b
    → InSync (publish_into env b device r room).0
publish_into-InSync env b device r none f h = h
publish_into-InSync env b device r (some t) f h = elim (Option-cases env.fresh_id) [
  | inl e ↦ ground arith
  | inr (id, e) ↦ rw (e, publish_with) (append_entry-InSync env b t id device r h)
]

publish-InSync :
    (env : Env) (b : Bus) (device : String) (r : CommandRequest)
    → is_some env.fresh_id ≡ true
    → InSync b
    → InSync (publish env b device r).0
unfolding publish
publish-InSync env b device r f h =
    elim (validate_command_request r) as (λ v. InSync (publish_checked env b device r v).0) [
      | err code ↦ h
      | ok _ ↦ publish_into-InSync env b device r (make_room env b.state) f h
    ]

record_outcome-InSync :
    (env : Env) (b : Bus) (o : Recording) → InSync b → InSync (record_outcome env b o).0
record_outcome-InSync env b missing h = h
record_outcome-InSync env b (refused e) h = h
record_outcome-InSync env b (unchanged e) h = h
record_outcome-InSync env b (recorded e es first) h = ground arith

-- A call on a bus that agrees with its file leaves it in agreement, unless it is one of the two calls
-- that `Durable` leaves out.
pub step-InSync :
    (env : Env) (b : Bus) (c : Call) → Durable env b c → InSync b → InSync (step env b c)
unfolding step record_result subscribe pending get
step-InSync env b (publishes device r) d h = publish-InSync env b device r d h
step-InSync env b (reads device sent) d h = ground (arith, expire_all-unchanged env b.state.entries)
step-InSync env b (records device r) d h =
    record_outcome-InSync env b (record_in env device r b.state.entries) h
step-InSync env b (gets id) d h = ground (arith, expire_all-unchanged env b.state.entries)
step-InSync env b (subscribes device) d h = h

append_entry-rolls_back :
    (env : Env) (b : Bus) (room : StateFile) (id device : String) (r : CommandRequest)
    → (append_entry env b room id device r).1 ≡ err not_persisted
    → (append_entry env b room id device r).0 ≡ b
unfolding append_entry
append_entry-rolls_back env b room id device r h = ground arith

publish_into-rolls_back :
    (env : Env) (b : Bus) (device : String) (r : CommandRequest) (room : Option StateFile)
    → (publish_into env b device r room).1 ≡ err not_persisted
    → (publish_into env b device r room).0 ≡ b
publish_into-rolls_back env b device r none h = refl
publish_into-rolls_back env b device r (some t) h = elim (Option-cases env.fresh_id) [
  | inl e ↦ ground arith
  | inr (id, e) ↦ ground (arith, append_entry-rolls_back env b t id device r)
]

publish-rolls_back :
    (env : Env) (b : Bus) (device : String) (r : CommandRequest)
    → (publish env b device r).1 ≡ err not_persisted
    → (publish env b device r).0 ≡ b
unfolding publish
publish-rolls_back env b device r =
    elim (validate_command_request r)
      as (λ v.
        (publish_checked env b device r v).1 ≡ err not_persisted
        → (publish_checked env b device r v).0 ≡ b) [
          | err code ↦ λ h. refl
          | ok _ ↦ publish_into-rolls_back env b device r (make_room env b.state)
        ]

record_outcome-rolls_back :
    (env : Env) (b : Bus) (o : Recording)
    → (record_outcome env b o).1 ≡ err not_persisted
    → (record_outcome env b o).0 ≡ b
record_outcome-rolls_back env b missing h = refl
record_outcome-rolls_back env b (refused e) h = refl
record_outcome-rolls_back env b (unchanged e) h = refl
record_outcome-rolls_back env b (recorded e es first) h = ground arith

-- The error that a call returns, if it does.
abbrev error_of {ℓ} : {A : Type ℓ} → Bus × Result BusError A → Option BusError
error_of (b, ok _) = none
error_of (b, err e) = some e

abbrev pub call_error : Env → Bus → Call → Option BusError
call_error env b (publishes device r) = error_of (publish env b device r)
call_error env b (reads device sent) = error_of (pending env b device sent)
call_error env b (records device r) = error_of (record_result env b device r)
call_error env b (gets id) = error_of (get env b id)
call_error env b (subscribes device) = none

error_of-err {ℓ} :
    {A : Type ℓ} (r : Bus × Result BusError A) (e : BusError) → error_of r ≡ some e → r.1 ≡ err e
error_of-err (b, ok _) e h = cc
error_of-err (b, err _) e h = cc

-- A call that reports a failed write of the state file leaves the bus as it was: the state, the file
-- and the waiting signals.
pub failed_write-rolls_back :
    (env : Env) (b : Bus) (c : Call) → call_error env b c ≡ some not_persisted → step env b c ≡ b
unfolding step record_result pending get
failed_write-rolls_back env b (publishes device r) h =
    publish-rolls_back env b device r (error_of-err (publish env b device r) not_persisted h)
failed_write-rolls_back env b (reads device sent) h = ground arith
failed_write-rolls_back env b (records device r) h =
    record_outcome-rolls_back env b (record_in env device r b.state.entries)
      (error_of-err (record_result env b device r) not_persisted h)
failed_write-rolls_back env b (gets id) h = ground arith
failed_write-rolls_back env b (subscribes device) h = cc

-- A publication that fails for want of an id is not rolled back: the state in memory is the one in
-- which a command made room, and the file still holds the state before.
pub no_command_id-not_rolled_back :
    (env : Env) (b : Bus) (device : String) (r : CommandRequest)
    → (publish env b device r).1 ≡ err no_command_id
    → (make_room env b.state ≡ some (publish env b device r).0.state)
      × ((publish env b device r).0.disk ≡ b.disk)
unfolding publish append_entry
no_command_id-not_rolled_back env b device r h = ground arith
