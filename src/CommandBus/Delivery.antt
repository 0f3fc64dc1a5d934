-- ===== src/CommandBus/Delivery.antt =====
-- What `Publish` of internal/commandbus/bus.go adds, and that `Pending` hands it out.
use homepi_mon.Common.{
  ℕ, zero, suc, ◌+◌, ◌-◌, ◌*◌, ◌<◌, ◌≡◌, refl, ◌∙◌, ap, String, Result, true, false, List, [], ◌∷◌,
  ◌++◌, Option, none, some, arith, ok, err, text_mem, eq_iff,
}
use homepi_mon.Common.Int.{pos, pos_part}
use homepi_mon.Common.Time.{second}
use homepi_mon.Protocol.Enums.{published, final}
use homepi_mon.Protocol.Command.{CommandRequest, DisplayCommand, validate_command_request}
use homepi_mon.CommandBus.Entries.{
  Entry, Env, is_final, expire, expire_all, finals_count, remove_first_final, trim_rounds, trim,
  max_results,
}
use homepi_mon.CommandBus.{
  Bus, StateFile, make_room, new_entry, append_entry, publish, publish_checked, publish_into,
  publish_with, pending, deliverable, uint64,
}

-- What a successful `Publish` did: it took the request under the next sequence number, as published
-- at this instant and due at the end of its time to live, and put it behind all other entries.
pub record Published (env : Env) (b : Bus) (device : String) (r : CommandRequest) (after : Bus)
    (e : Entry) : Type 0 where
  pub valid : validate_command_request r ≡ ok tt
  pub wrote : env.persists ≡ true
  pub fresh : env.fresh_id ≡ some e.command.command_id
  pub schema_major : e.command.schema_major ≡ pos 1
  pub device_id : e.command.device_id ≡ device
  pub kind : e.command.kind ≡ r.kind
  pub params : e.command.params ≡ r.params
  pub priority : e.command.priority ≡ r.priority
  pub issued_at : e.command.issued_at ≡ env.now
  pub sequence : e.command.sequence ≡ uint64 (b.state.sequence + 1)
  pub expires_at : e.command.expires_at ≡ env.now + pos_part r.ttl_seconds * second
  pub status : e.result.status ≡ published
  pub counter : after.state.sequence ≡ e.command.sequence
  pub older : List Entry
  pub entries : after.state.entries ≡ older ++ e ∷ []

remove_first_final-append :
    (es : List Entry) (e : Entry)
    → is_final e ≡ false
    → remove_first_final (es ++ e ∷ []) ≡ remove_first_final es ++ e ∷ []
unfolding remove_first_final
remove_first_final-append [] e h = rw h
remove_first_final-append (x ∷ es) e h = ground (arith, remove_first_final-append es e h)

trim_rounds-append :
    (n : ℕ) (es : List Entry) (e : Entry)
    → is_final e ≡ false
    → trim_rounds n (es ++ e ∷ []) ≡ trim_rounds n es ++ e ∷ []
unfolding trim_rounds
trim_rounds-append zero es e h = refl
trim_rounds-append (suc n) es e h =
    ap (trim_rounds n) (remove_first_final-append es e h)
    ∙ trim_rounds-append n (remove_first_final es) e h

-- Trimming never removes a new entry.
trim-append :
    (es : List Entry) (e : Entry)
    → is_final e ≡ false
    → trim (es ++ e ∷ []) ≡ trim_rounds (finals_count (es ++ e ∷ []) - max_results) es ++ e ∷ []
unfolding trim
trim-append es e h = trim_rounds-append (finals_count (es ++ e ∷ []) - max_results) es e h

make_room-sequence :
    (env : Env) (s t : StateFile) → make_room env s ≡ some t → t.sequence ≡ s.sequence
unfolding make_room
make_room-sequence env s t h = ground arith

append_entry-Published :
    (env : Env) (b : Bus) (room : StateFile) (id device : String) (r : CommandRequest) (e : Entry)
    → validate_command_request r ≡ ok tt
    → env.fresh_id ≡ some id
    → room.sequence ≡ b.state.sequence
    → (append_entry env b room id device r).1 ≡ ok e
    → Published env b device r (append_entry env b room id device r).0 e
unfolding append_entry new_entry
append_entry-Published env b room id device r e v f q h = record {
  valid = v;
  wrote = ground arith;
  fresh = ground arith;
  schema_major = ground arith;
  device_id = ground arith;
  kind = ground arith;
  params = ground arith;
  priority = ground arith;
  issued_at = ground arith;
  sequence = ground arith;
  expires_at = ground arith;
  status = ground arith;
  counter = ground arith;
  older = trim_rounds (finals_count (room.entries ++ e ∷ []) - max_results) room.entries;
  entries = ground (arith, trim-append room.entries e);
}

publish_with-Published :
    (env : Env) (b : Bus) (room : StateFile) (device : String) (r : CommandRequest) (e : Entry)
    (id : Option String)
    → validate_command_request r ≡ ok tt
    → room.sequence ≡ b.state.sequence
    → env.fresh_id ≡ id
    → (publish_with env b room device r id).1 ≡ ok e
    → Published env b device r (publish_with env b room device r id).0 e
publish_with-Published env b room device r e none v q f h = cc
publish_with-Published env b room device r e (some id) v q f h =
    append_entry-Published env b room id device r e v f q h

publish_into-Published :
    (env : Env) (b : Bus) (device : String) (r : CommandRequest) (e : Entry)
    (room : Option StateFile)
    → validate_command_request r ≡ ok tt
    → ((t : StateFile) → room ≡ some t → t.sequence ≡ b.state.sequence)
    → (publish_into env b device r room).1 ≡ ok e
    → Published env b device r (publish_into env b device r room).0 e
publish_into-Published env b device r e none v q h = cc
publish_into-Published env b device r e (some t) v q h =
    publish_with-Published env b t device r e env.fresh_id v (q t refl) refl h

publish_checked-Published :
    (env : Env) (b : Bus) (device : String) (r : CommandRequest) (e : Entry)
    (v : Result String (Unit {0}))
    → validate_command_request r ≡ v
    → (publish_checked env b device r v).1 ≡ ok e
    → Published env b device r (publish_checked env b device r v).0 e
publish_checked-Published env b device r e (err code) q = λ h. cc
publish_checked-Published env b device r e (ok u) q =
    publish_into-Published env b device r e (make_room env b.state) q
      (make_room-sequence env b.state)

-- A `Publish` that returns an entry had a valid request, a fresh id and a written file. The entry has
-- the request, the next sequence number, this instant and its expiry, and stands behind all others as
-- published; the counter is its number.
pub publish-Published :
    (env : Env) (b : Bus) (device : String) (r : CommandRequest) (e : Entry)
    → (publish env b device r).1 ≡ ok e
    → Published env b device r (publish env b device r).0 e
unfolding publish
publish-Published env b device r e =
    publish_checked-Published env b device r e (validate_command_request r) refl

expire_all-append :
    (env : Env) (es : List Entry) (e : Entry)
    → (expire_all env (es ++ e ∷ [])).0 ≡ (expire_all env es).0 ++ (expire env e).0 ∷ []
unfolding expire_all
expire_all-append env [] e = refl
expire_all-append env (x ∷ es) e = ap (◌∷◌ (expire env x).0) (expire_all-append env es e)

expire-waits :
    (env : Env) (e : Entry)
    → e.result.status ≡ published
    → env.now < e.command.expires_at
    → (expire env e).0 ≡ e
unfolding expire
expire-waits env e s h = ground arith

deliverable-append :
    (device : String) (sent : List String) (es : List Entry) (e : Entry)
    → e.command.device_id ≡ device
    → is_final e ≡ false
    → text_mem e.command.command_id sent ≡ false
    → deliverable device sent (es ++ e ∷ []) ≡ deliverable device sent es ++ e.command ∷ []
unfolding deliverable
deliverable-append device sent [] e d f s = ground (arith, eq_iff e.command.device_id device)
deliverable-append device sent (x ∷ es) e d f s =
    ground (arith, deliverable-append device sent es e d f s)

-- A published command is the last of those that `Pending` gives its device, as long as it is before
-- its expiry, its id is not among those sent, and the state file can be written.
pub pending-publish :
    (env later : Env) (b : Bus) (device : String) (r : CommandRequest) (e : Entry)
    (sent : List String)
    → (publish env b device r).1 ≡ ok e
    → later.now < e.command.expires_at
    → text_mem e.command.command_id sent ≡ false
    → later.persists ≡ true
    → (earlier : List DisplayCommand) × ((pending later (publish env b device r).0 device sent).1
        ≡ ok (earlier ++ e.command ∷ []))
unfolding pending
pending-publish env later b device r e sent h t s w =
    let p = publish-Published env b device r e h in
    let split =
      ap (λ es. (expire_all later es).0) p.entries
      ∙ expire_all-append later p.older e
      ∙ ap (λ x. (expire_all later p.older).0 ++ x ∷ []) (expire-waits later e p.status t) in
    let last =
      ap (deliverable device sent) split
      ∙ deliverable-append device sent (expire_all later p.older).0 e p.device_id
          (ap (λ q. final q) p.status) s in
    (deliverable device sent (expire_all later p.older).0, ground (arith, last))
