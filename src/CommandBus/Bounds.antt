-- ===== src/CommandBus/Bounds.antt =====
-- The sizes of the queue of internal/commandbus/bus.go.
use homepi_mon.Common.{
  ℕ, ◌+◌, ◌≤◌, ◌≡◌, refl, inl, inr, List, [], ◌∷◌, ◌++◌, Option, none, some, arith, Bool-cases,
  Option-cases, ok, err, String,
}
use homepi_mon.Protocol.Command.{CommandRequest, validate_command_request}
use homepi_mon.CommandBus.Entries.{
  Entry, Env, pending_count, finals_count, drop_oldest_normal, max_pending, max_results, trim,
}
use homepi_mon.CommandBus.Counts.{
  total, pending_count-append, trim-counts, expire_all-counts, drop_oldest_normal-counts,
  CountsKept, record_in-counts,
}
use homepi_mon.CommandBus.{
  Bus, StateFile, Recording, missing, refused, unchanged, recorded, make_room, new_entry,
  append_entry, publish, publish_checked, publish_into, publish_with, pending, get, record_in,
  record_outcome, record_result, subscribe, Call, publishes, reads, records, gets, subscribes, step,
  uint64,
}

-- At most 64 commands wait, and the state has at most 320 entries, which is what `Open` accepts.
pub record IsBounded (s : StateFile) : Type 0 where
  pub waiting : pending_count s.entries ≤ max_pending
  pub stored : total s.entries ≤ max_pending + max_results

make_room-bounds :
    (env : Env) (s t : StateFile)
    → IsBounded s
    → make_room env s ≡ some t
    → pending_count t.entries + 1 ≤ max_pending
unfolding make_room
make_room-bounds env s t b h = elim (Option-cases (drop_oldest_normal env s.entries)) [
  | inl e ↦ ground arith
  | inr (es, e) ↦ ground (arith, drop_oldest_normal-counts env s.entries es e)
]

make_room-IsBounded :
    (env : Env) (s t : StateFile) → IsBounded s → make_room env s ≡ some t → IsBounded t
unfolding make_room
make_room-IsBounded env s t b h = elim (Option-cases (drop_oldest_normal env s.entries)) [
  | inl e ↦ ground arith
  | inr (es, e) ↦ ground (arith, drop_oldest_normal-counts env s.entries es e)
]

one_pending :
    (env : Env) (id device : String) (r : CommandRequest) (n : ℕ)
    → (pending_count (new_entry env id device r n ∷ []) ≡ 1)
      × (finals_count (new_entry env id device r n ∷ []) ≡ 0)
unfolding new_entry pending_count finals_count
one_pending env id device r n = (refl, refl)

-- With room for one more pending entry, an appended and trimmed state is bounded.
append-IsBounded :
    (es : List Entry) (e : Entry) (n : ℕ)
    → pending_count es + 1 ≤ max_pending
    → pending_count (e ∷ []) ≡ 1
    → IsBounded (record { sequence = n; entries = trim (es ++ e ∷ []) })
append-IsBounded es e n h one =
    omega (arith, trim-counts (es ++ e ∷ []), pending_count-append es (e ∷ []))

append_entry-IsBounded :
    (env : Env) (b : Bus) (room : StateFile) (id device : String) (r : CommandRequest)
    → IsBounded b.state
    → pending_count room.entries + 1 ≤ max_pending
    → IsBounded (append_entry env b room id device r).0.state
unfolding append_entry
append_entry-IsBounded env b room id device r v h = elim (Bool-cases env.persists) [
  | inl wrote ↦ simp wrote (
      append-IsBounded room.entries _ _ h
        (one_pending env id device r (uint64 (room.sequence + 1))).0)
  | inr not_wrote ↦ simp not_wrote v
]

publish_into-IsBounded :
    (env : Env) (b : Bus) (device : String) (r : CommandRequest) (room : Option StateFile)
    → IsBounded b.state
    → ((t : StateFile) → room ≡ some t → (pending_count t.entries + 1 ≤ max_pending) × IsBounded t)
    → IsBounded (publish_into env b device r room).0.state
publish_into-IsBounded env b device r none v h = v
publish_into-IsBounded env b device r (some t) v h = elim (Option-cases env.fresh_id) [
  | inl e ↦ rw (e, publish_with) ((h t refl).1)
  | inr (id, e) ↦ rw (e, publish_with) (append_entry-IsBounded env b t id device r v (h t refl).0)
]

publish-IsBounded :
    (env : Env) (b : Bus) (device : String) (r : CommandRequest)
    → IsBounded b.state
    → IsBounded (publish env b device r).0.state
unfolding publish
publish-IsBounded env b device r v =
    elim (validate_command_request r)
      as (λ o. IsBounded (publish_checked env b device r o).0.state) [
        | err code ↦ v
        | ok _ ↦
            publish_into-IsBounded env b device r (make_room env b.state) v
              (λ t h. (make_room-bounds env b.state t v h, make_room-IsBounded env b.state t v h))
      ]

record_outcome-IsBounded :
    (env : Env) (b : Bus) (o : Recording)
    → IsBounded b.state
    → CountsKept b.state.entries o
    → IsBounded (record_outcome env b o).0.state
record_outcome-IsBounded env b missing v h = v
record_outcome-IsBounded env b (refused e) v h = v
record_outcome-IsBounded env b (unchanged e) v h = v
record_outcome-IsBounded env b (recorded e es first) v h = ground (arith, trim-counts es)

-- Every call keeps the bounds: at most 64 commands wait, and at most 320 entries are stored.
pub step-IsBounded :
    (env : Env) (b : Bus) (c : Call) → IsBounded b.state → IsBounded (step env b c).state
unfolding step record_result subscribe pending get
step-IsBounded env b (publishes device r) v = publish-IsBounded env b device r v
step-IsBounded env b (reads device sent) v = ground (arith, expire_all-counts env b.state.entries)
step-IsBounded env b (records device r) v =
    record_outcome-IsBounded env b (record_in env device r b.state.entries) v
      (record_in-counts env device r b.state.entries)
step-IsBounded env b (gets id) v = ground (arith, expire_all-counts env b.state.entries)
step-IsBounded env b (subscribes device) v = v
