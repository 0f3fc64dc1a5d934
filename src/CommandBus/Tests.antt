-- ===== src/CommandBus/Tests.antt =====
-- Runs of the bus of internal/commandbus/bus.go on concrete queues.
use homepi_mon.Common.{
  all, ◌≡◌, ◌*◌, ℕ, suc, refl, true, false, List, [], ◌∷◌, ◌++◌, none, some, arith, ok, err,
}
use homepi_mon.Common.Int.{pos}
use homepi_mon.Common.Time.{second}
use homepi_mon.Protocol.Enums.{
  command_kind_valid, priority_valid, show_message, high, normal, executed,
}
use homepi_mon.Protocol.Params.{object, str, decode_message}
use homepi_mon.Protocol.Ids.{valid_message}
use homepi_mon.Protocol.Command.{
  CommandRequest, CommandResult, DisplayCommand, validate_command_request, validate_command_params,
  default_priority, params_ok,
}
use homepi_mon.CommandBus.Entries.{
  expire_all, expire, finish, Entry, Env, pending_count, finals_count, drop_oldest_normal,
}
use homepi_mon.CommandBus.Bounds.{IsBounded, step-IsBounded}
use homepi_mon.CommandBus.Open.{FileSystem}
use homepi_mon.CommandBus.Persist.{call_error, failed_write-rolls_back}
use homepi_mon.CommandBus.Delivery.{Published, publish-Published, pending-publish}
use homepi_mon.CommandBus.Expiry.{in_time, unsent, pending-in_time}
use homepi_mon.CommandBus.Sequence.{Grows, step-IsOrdered}
use homepi_mon.CommandBus.{
  deliverable, expired_state, Bus, StateFile, not_persisted, no_command_id, make_room, publish,
  pending, new_entry, append_entry, publishes, records, step,
}

abbrev env : Env
env = record {
  now = 1000 * second;
  persists = true;
  fresh_id = some "11111111-1111-4111-8111-111111111111";
  sha256_hex = λ s. "hash";
}

abbrev full_disk : Env
full_disk = record env { persists = false }

abbrev no_random : Env
no_random = record env { fresh_id = none }

abbrev say_hello : CommandRequest
say_hello = record {
  kind = show_message;
  params = object (("text", str "hello") ∷ ("severity", str "info") ∷ []);
  priority = high;
  ttl_seconds = pos 60;
}

abbrev empty_bus : Bus
empty_bus = record {
  state = record { sequence = 0; entries = [] };
  disk = record { sequence = 0; entries = [] };
  notify = [];
}

abbrev hello : Entry
hello = new_entry env "11111111-1111-4111-8111-111111111111" "kitchen" say_hello 1

-- The state with one waiting message.
abbrev one : StateFile
one = record { sequence = 1; entries = hello ∷ [] }

abbrev one_bus : Bus
one_bus = record { state = one; disk = one; notify = ("kitchen", false) ∷ [] }

abbrev done : CommandResult
done = record {
  command_id = "11111111-1111-4111-8111-111111111111";
  sequence = 1;
  status = executed;
  code = "";
  received_at = 1000 * second;
  completed_at = some (1001 * second);
  duration_ms = pos 1000;
}

-- A queue that is full of commands of high priority but for one, which is the first.
abbrev fill : ℕ → List Entry
fill ℕ.zero = []
fill (suc n) = hello ∷ fill n

abbrev plain : Entry
plain = record hello { command = record hello.command { priority = normal } }

abbrev full_bus : Bus
full_bus = record {
  state = record { sequence = 1; entries = plain ∷ fill 63 };
  disk = record { sequence = 1; entries = plain ∷ fill 63 };
  notify = [];
}

valid_hello : validate_command_request say_hello ≡ ok tt
unfolding validate_command_request validate_command_params command_kind_valid priority_valid
    default_priority params_ok decode_message valid_message
valid_hello = refl

publishes_hello : (publish env empty_bus "kitchen" say_hello).1 ≡ ok hello
unfolding publish make_room pending_count append_entry
publishes_hello = rw (valid_hello, publish) refl

no_disk : call_error full_disk empty_bus (publishes "kitchen" say_hello) ≡ some not_persisted
unfolding publish make_room pending_count append_entry
no_disk = rw (valid_hello, publish) refl

no_id : (publish no_random full_bus "kitchen" say_hello).1 ≡ err no_command_id
unfolding publish make_room pending_count drop_oldest_normal new_entry
no_id = rw (valid_hello, publish) refl

one-IsBounded : IsBounded one
unfolding pending_count finals_count new_entry
one-IsBounded = record { waiting = omega arith; stored = omega arith }

step-IsBounded_example : IsBounded (step env one_bus (records "kitchen" done)).state
step-IsBounded_example = step-IsBounded env one_bus (records "kitchen" done) one-IsBounded

abbrev good_files : FileSystem
good_files = record {
  makes_dir = true;
  protects_dir = true;
  protects_file = true;
  renames = true;
  persists = true;
}

failed_write-rolls_back_example :
    step full_disk empty_bus (publishes "kitchen" say_hello) ≡ empty_bus
failed_write-rolls_back_example =
    failed_write-rolls_back full_disk empty_bus (publishes "kitchen" say_hello) no_disk

publish-Published_example :
    Published env empty_bus "kitchen" say_hello (publish env empty_bus "kitchen" say_hello).0 hello
publish-Published_example =
    publish-Published env empty_bus "kitchen" say_hello hello publishes_hello

pending-publish_example :
    (earlier : List DisplayCommand) × ((pending env
        (publish env empty_bus "kitchen" say_hello).0
        "kitchen"
        []).1
      ≡ ok (earlier ++ hello.command ∷ []))
unfolding new_entry
pending-publish_example =
    pending-publish env env empty_bus "kitchen" say_hello hello [] publishes_hello (omega arith)
      refl refl

step-IsOrdered_example : Grows one (step env one_bus (publishes "kitchen" say_hello)).state
unfolding new_entry
step-IsOrdered_example =
    step-IsOrdered env one_bus (publishes "kitchen" say_hello) (omega arith, omega arith)
      (omega arith)

-- Two hours later, when the message has expired.
abbrev later : Env
later = record env { now = 8200 * second }

none_left : (pending later one_bus "kitchen" []).1 ≡ ok []
unfolding pending expired_state expire_all expire new_entry deliverable finish
none_left = refl

pending-in_time_example :
    (all (in_time later.now) (pending later one_bus "kitchen" []).0.state.entries ≡ true)
    × (all (unsent "kitchen" []) [] ≡ true)
pending-in_time_example = pending-in_time later one_bus "kitchen" [] [] none_left
