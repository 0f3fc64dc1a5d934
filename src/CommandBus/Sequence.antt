-- ===== src/CommandBus/Sequence.antt =====
-- The sequence numbers of internal/commandbus/bus.go.
use homepi_mon.Common.{
  ℕ, zero, suc, ◌+◌, ◌-◌, ◌^◌, ◌≤◌, ◌<◌, ◌≡◌, refl, String, inl, inr, List, [], ◌∷◌, ◌++◌, Option,
  none, some, arith, Bool-cases, Option-cases, ok, err, str_eq, map, ap,
}
use homepi_mon.Protocol.Command.{CommandRequest, CommandResult, validate_command_request}
use homepi_mon.CommandBus.Entries.{
  Entry, Env, is_final, drop_oldest_normal, expire, expire_all, remove_first_final, trim_rounds,
  trim, finals_count, max_results, overflow,
}
use homepi_mon.CommandBus.{
  Bus, StateFile, Recording, missing, refused, unchanged, recorded, behind, make_room, new_entry,
  append_entry, publish, publish_checked, publish_into, publish_with, pending, get, store_result,
  record_entry, record_in, record_outcome, record_result, subscribe, Call, publishes, reads,
  records, gets, subscribes, step, uint64,
}

-- The numbers rise along the list, above `lo` and up to `hi`.
abbrev pub Between : ℕ → ℕ → List ℕ → Type 0
Between lo hi [] = lo ≤ hi
Between lo hi (x ∷ xs) = (lo < x) × Between x hi xs

abbrev pub sequences : List Entry → List ℕ
sequences = map (λ e. e.command.sequence)

-- The entries stand in the order of their sequence numbers, which are distinct and at most the
-- counter.
abbrev pub IsOrdered : StateFile → Type 0
IsOrdered s = Between 0 s.sequence (sequences s.entries)

Between-weaken : (lo lo' hi : ℕ) (xs : List ℕ) → lo ≤ lo' → Between lo' hi xs → Between lo hi xs
Between-weaken lo lo' hi [] h b = omega arith
Between-weaken lo lo' hi (x ∷ xs) h b = (omega arith, b.1)

Between-append :
    (lo hi n : ℕ) (xs : List ℕ) → Between lo hi xs → hi < n → Between lo n (xs ++ n ∷ [])
Between-append lo hi n [] b h = (omega arith, omega arith)
Between-append lo hi n (x ∷ xs) b h = (b.0, Between-append x hi n xs b.1 h)

remove_first_final-Between :
    (lo hi : ℕ) (es : List Entry)
    → Between lo hi (sequences es)
    → Between lo hi (sequences (remove_first_final es))
unfolding remove_first_final
remove_first_final-Between lo hi [] b = b
remove_first_final-Between lo hi (e ∷ es) b = elim (Bool-cases (is_final e)) [
  | inl f ↦ rw f (Between-weaken lo e.command.sequence hi (sequences es) (omega arith) b.1)
  | inr f ↦ rw f (b.0, remove_first_final-Between e.command.sequence hi es b.1)
]

trim_rounds-Between :
    (n lo hi : ℕ) (es : List Entry)
    → Between lo hi (sequences es)
    → Between lo hi (sequences (trim_rounds n es))
unfolding trim_rounds
trim_rounds-Between zero lo hi es b = b
trim_rounds-Between (suc n) lo hi es b =
    trim_rounds-Between n lo hi (remove_first_final es) (remove_first_final-Between lo hi es b)

trim-Between :
    (lo hi : ℕ) (es : List Entry)
    → Between lo hi (sequences es)
    → Between lo hi (sequences (trim es))
unfolding trim
trim-Between lo hi es b = trim_rounds-Between (finals_count es - max_results) lo hi es b

expire-sequence : (env : Env) (e : Entry) → (expire env e).0.command.sequence ≡ e.command.sequence
unfolding expire
expire-sequence env e = ground arith

expire_all-sequences :
    (env : Env) (es : List Entry) → sequences (expire_all env es).0 ≡ sequences es
unfolding expire_all
expire_all-sequences env [] = refl
expire_all-sequences env (e ∷ es) =
    ground (arith, expire-sequence env e, expire_all-sequences env es)

drop_oldest_normal-sequences :
    (env : Env) (es fs : List Entry)
    → drop_oldest_normal env es ≡ some fs
    → sequences fs ≡ sequences es
unfolding drop_oldest_normal overflow
drop_oldest_normal-sequences env [] fs h = cc
drop_oldest_normal-sequences env (e ∷ es) fs h = elim (Option-cases (drop_oldest_normal env es)) [
  | inl q ↦ ground arith
  | inr (gs, q) ↦ ground (arith, drop_oldest_normal-sequences env es gs q)
]

pub make_room-sequences :
    (env : Env) (s t : StateFile)
    → make_room env s ≡ some t
    → (t.sequence ≡ s.sequence) × (sequences t.entries ≡ sequences s.entries)
unfolding make_room
make_room-sequences env s t h = elim (Option-cases (drop_oldest_normal env s.entries)) [
  | inl e ↦ ground arith
  | inr (es, e) ↦ ground (arith, drop_oldest_normal-sequences env s.entries es e)
]

abbrev Numbers : List Entry → Recording → Type 0
Numbers es (recorded e fs first) = sequences fs ≡ sequences es
Numbers es _ = Unit {0}

record_entry-Numbers :
    (env : Env) (device : String) (r : CommandResult) (e : Entry) (es : List Entry)
    → Numbers (e ∷ es) (record_entry env device r e es)
unfolding record_entry store_result
record_entry-Numbers env device r e es = ground arith

behind-Numbers :
    (e : Entry) (es : List Entry) (o : Recording) → Numbers es o → Numbers (e ∷ es) (behind e o)
behind-Numbers e es missing h = tt
behind-Numbers e es (refused x) h = tt
behind-Numbers e es (unchanged x) h = tt
behind-Numbers e es (recorded x fs first) h = ap (◌∷◌ e.command.sequence) h

record_in-Numbers :
    (env : Env) (device : String) (r : CommandResult) (es : List Entry)
    → Numbers es (record_in env device r es)
unfolding record_in
record_in-Numbers env device r [] = tt
record_in-Numbers env device r (e ∷ es) =
    elim (Bool-cases (str_eq e.command.command_id r.command_id)) [
      | inl here ↦ rw here (record_entry-Numbers env device r e es)
      | inr later ↦
          rw later
            (behind-Numbers e es (record_in env device r es) (record_in-Numbers env device r es))
    ]

sequences-append :
    (es : List Entry) (e : Entry)
    → sequences (es ++ e ∷ []) ≡ sequences es ++ e.command.sequence ∷ []
sequences-append [] e = refl
sequences-append (x ∷ es) e = ap (◌∷◌ x.command.sequence) (sequences-append es e)

abbrev pub Grows : StateFile → StateFile → Type 0
Grows s t = IsOrdered t × (s.sequence ≤ t.sequence)

append_entry-Grows :
    (env : Env) (b : Bus) (room : StateFile) (id device : String) (r : CommandRequest)
    → IsOrdered b.state
    → b.state.sequence + 1 < 2 ^ 64
    → (room.sequence ≡ b.state.sequence) × (sequences room.entries ≡ sequences b.state.entries)
    → Grows b.state (append_entry env b room id device r).0.state
unfolding append_entry new_entry
append_entry-Grows env b room id device r o w q = elim (Bool-cases env.persists) [
  | inl wrote ↦ simp wrote (
    trim-Between 0 n _ (
        rw (sequences-append room.entries (new_entry env id device r n))
          (Between-append 0 b.state.sequence n _ (rw (q.1) o) above)),
    omega arith,
  )
  | inr not_wrote ↦ simp not_wrote (o, omega arith)
]
  where
    n : ℕ
    n = uint64 (room.sequence + 1)

    above : b.state.sequence < n
    above = omega arith

publish_into-Grows :
    (env : Env) (b : Bus) (device : String) (r : CommandRequest) (room : Option StateFile)
    → IsOrdered b.state
    → b.state.sequence + 1 < 2 ^ 64
    → ((t : StateFile)
        → room ≡ some t
        → (t.sequence ≡ b.state.sequence) × (sequences t.entries ≡ sequences b.state.entries))
    → Grows b.state (publish_into env b device r room).0.state
publish_into-Grows env b device r none o w q = (o, omega arith)
publish_into-Grows env b device r (some t) o w q = elim (Option-cases env.fresh_id) [
  | inl e ↦ let (same, kept) = q t refl in rw (e, publish_with) (rw kept (rw same o), omega arith)
  | inr (id, e) ↦ rw (e, publish_with) (append_entry-Grows env b t id device r o w (q t refl))
]

publish-Grows :
    (env : Env) (b : Bus) (device : String) (r : CommandRequest)
    → IsOrdered b.state
    → b.state.sequence + 1 < 2 ^ 64
    → Grows b.state (publish env b device r).0.state
unfolding publish
publish-Grows env b device r o w =
    elim (validate_command_request r)
      as (λ v. Grows b.state (publish_checked env b device r v).0.state) [
        | err code ↦ (o, omega arith)
        | ok _ ↦
            publish_into-Grows env b device r (make_room env b.state) o w
              (make_room-sequences env b.state)
      ]

record_outcome-Grows :
    (env : Env) (b : Bus) (out : Recording)
    → IsOrdered b.state
    → Numbers b.state.entries out
    → Grows b.state (record_outcome env b out).0.state
record_outcome-Grows env b missing o h = (o, omega arith)
record_outcome-Grows env b (refused e) o h = (o, omega arith)
record_outcome-Grows env b (unchanged e) o h = (o, omega arith)
record_outcome-Grows env b (recorded e es first) o h = elim (Bool-cases env.persists) [
  | inl wrote ↦ simp wrote (trim-Between 0 b.state.sequence es (rw h o), omega arith)
  | inr not_wrote ↦ simp not_wrote (o, omega arith)
]

expired-Grows :
    (env : Env) (s : StateFile)
    → IsOrdered s
    → Between 0 s.sequence (sequences (expire_all env s.entries).0)
expired-Grows env s o = rw (expire_all-sequences env s.entries) o

-- Every call keeps the entries in the order of distinct sequence numbers, none above the counter,
-- and never lowers the counter, as long as the counter is not the last uint64.
pub step-IsOrdered :
    (env : Env) (b : Bus) (c : Call)
    → IsOrdered b.state
    → b.state.sequence + 1 < 2 ^ 64
    → Grows b.state (step env b c).state
unfolding step record_result subscribe pending get
step-IsOrdered env b (publishes device r) o w = publish-Grows env b device r o w
step-IsOrdered env b (reads device sent) o w =
    (ground (arith, expired-Grows env b.state o), ground arith)
step-IsOrdered env b (records device r) o w =
    record_outcome-Grows env b (record_in env device r b.state.entries) o
      (record_in-Numbers env device r b.state.entries)
step-IsOrdered env b (gets id) o w = (ground (arith, expired-Grows env b.state o), ground arith)
step-IsOrdered env b (subscribes device) o w = (o, omega arith)
