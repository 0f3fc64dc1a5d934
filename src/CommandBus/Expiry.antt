-- ===== src/CommandBus/Expiry.antt =====
-- `expireLocked` and `Pending` of internal/commandbus/bus.go, and the times of the commands.
use homepi_mon.Common.{
  ℕ, ◌≡◌, refl, String, Bool, true, not, ◌&&◌, ◌||◌, List, [], ◌∷◌, arith, all, ltb, str_eq,
  text_mem, ok,
}
use homepi_mon.Common.Int.{pos, ltb_ℤ}
use homepi_mon.Common.Time.{sub_time}
use homepi_mon.Protocol.Enums.{is_published, is_accepted}
use homepi_mon.Protocol.Command.{DisplayCommand, max_command_ttl}
use homepi_mon.CommandBus.Entries.{Entry, Env, expire, expire_all}
use homepi_mon.CommandBus.{Bus, pending, deliverable, expired_state}

-- The command is before its expiry if it waits, and has run for less than five minutes if it runs.
abbrev pub in_time : ℕ → Entry → Bool
in_time now e =
    (not (is_published e.result.status) || ltb now e.command.expires_at)
    && (not (is_accepted e.result.status)
        || ltb_ℤ (sub_time now e.result.received_at) (pos max_command_ttl))

expire-in_time : (env : Env) (e : Entry) → in_time env.now (expire env e).0 ≡ true
unfolding expire
expire-in_time env e = ground arith

expire_all-in_time :
    (env : Env) (es : List Entry) → all (in_time env.now) (expire_all env es).0 ≡ true
unfolding expire_all
expire_all-in_time env [] = refl
expire_all-in_time env (e ∷ es) = rw (expire-in_time env e, expire_all-in_time env es) refl

-- A command for the device that has not been sent.
abbrev pub unsent : String → List String → DisplayCommand → Bool
unsent device sent c = str_eq c.device_id device && not (text_mem c.command_id sent)

deliverable-unsent :
    (device : String) (sent : List String) (es : List Entry)
    → all (unsent device sent) (deliverable device sent es) ≡ true
unfolding deliverable
deliverable-unsent device sent [] = refl
deliverable-unsent device sent (e ∷ es) = ground (arith, deliverable-unsent device sent es)

-- After a `Pending` that succeeds, no command in the queue waits beyond its expiry and none has been
-- running for five minutes; and the commands that it hands out are for the device and not among
-- those sent.
pub pending-in_time :
    (env : Env) (b : Bus) (device : String) (sent : List String) (cs : List DisplayCommand)
    → (pending env b device sent).1 ≡ ok cs
    → (all (in_time env.now) (pending env b device sent).0.state.entries ≡ true)
      × (all (unsent device sent) cs ≡ true)
unfolding pending expired_state
pending-in_time env b device sent cs h = ground (
  arith,
  expire_all-in_time env b.state.entries,
  deliverable-unsent device sent (expire_all env b.state.entries).0,
)
