-- ===== src/CommandBus/Lifecycle.antt =====
-- The lifecycle of commands in the queue of internal/commandbus/bus.go, as a relation between the
-- entries before and after a call, and the proof that every call follows it.
use homepi_mon.Common.{
  ℕ, zero, suc, ◌-◌, ◌++◌, String, ◌≡◌, refl, ◌∙◌, ap, true, false, inl, inr, List, [], ◌∷◌, Option,
  none, some, arith, Bool-cases, Option-cases, ◌&&◌,
}
use homepi_mon.Protocol.Enums.{is_published, is_normal}
use homepi_mon.Protocol.Command.{CommandRequest}
use homepi_mon.CommandBus.Entries.{
  Entry, Env, is_final, drop_oldest_normal, expire, expire_all, remove_first_final, trim_rounds,
  trim, finals_count, max_results, overflow, behind_kept,
}
use homepi_mon.CommandBus.{Bus, StateFile, make_room, append_entry}

-- What one entry may become: it keeps its command's identity; a final result is never changed; an
-- accepted command is never published again.
pub record Moves (e f : Entry) : Type 0 where
  pub same_id : f.command.command_id ≡ e.command.command_id
  pub same_device : f.command.device_id ≡ e.command.device_id
  pub same_sequence : f.command.sequence ≡ e.command.sequence
  pub same_kind : f.command.kind ≡ e.command.kind
  pub same_issue : f.command.issued_at ≡ e.command.issued_at
  pub same_expiry : f.command.expires_at ≡ e.command.expires_at
  pub final_stays : is_final e ≡ true → f ≡ e
  pub accepted_stays : is_published e.result.status ≡ false → is_published f.result.status ≡ false

-- What the queue may become: new entries come at its end, and an entry goes only when it is final.
pub data Evolves : List Entry → List Entry → Type 0 where
  born : (fs : List Entry) → Evolves [] fs
  kept : {e f : Entry} {es fs : List Entry} → Moves e f → Evolves es fs → Evolves (e ∷ es) (f ∷ fs)
  dropped :
      {e : Entry} {es fs : List Entry} (f : Entry)
      → Moves e f
      → is_final f ≡ true
      → Evolves es fs
      → Evolves (e ∷ es) fs

pub Moves-refl : (e : Entry) → Moves e e
Moves-refl e = record {
  same_id = refl;
  same_device = refl;
  same_sequence = refl;
  same_kind = refl;
  same_issue = refl;
  same_expiry = refl;
  final_stays = λ _. refl;
  accepted_stays = λ h. h;
}

Moves-trans : {e f g : Entry} → Moves e f → Moves f g → Moves e g
Moves-trans {e} {f} {g} a b = record {
  same_id = b.same_id ∙ a.same_id;
  same_device = b.same_device ∙ a.same_device;
  same_sequence = b.same_sequence ∙ a.same_sequence;
  same_kind = b.same_kind ∙ a.same_kind;
  same_issue = b.same_issue ∙ a.same_issue;
  same_expiry = b.same_expiry ∙ a.same_expiry;
  final_stays = λ h. b.final_stays (ap is_final (a.final_stays h) ∙ h) ∙ a.final_stays h;
  accepted_stays = λ h. b.accepted_stays (a.accepted_stays h);
}

-- A final entry is still final after a move.
Moves-final : {e f : Entry} → Moves e f → is_final e ≡ true → is_final f ≡ true
Moves-final m h = ap is_final (m.final_stays h) ∙ h

pub Evolves-refl : (es : List Entry) → Evolves es es
Evolves-refl [] = born []
Evolves-refl (e ∷ es) = kept (Moves-refl e) (Evolves-refl es)

pub Evolves-trans : {es fs gs : List Entry} → Evolves es fs → Evolves fs gs → Evolves es gs
Evolves-trans {gs = gs} (born fs) b = born gs
Evolves-trans (kept m a) (kept n b) = kept (Moves-trans m n) (Evolves-trans a b)
Evolves-trans (kept m a) (dropped f n h b) = dropped f (Moves-trans m n) h (Evolves-trans a b)
Evolves-trans (dropped f m h a) b = dropped f m h (Evolves-trans a b)

Evolves-append : (es fs : List Entry) → Evolves es (es ++ fs)
Evolves-append [] fs = born fs
Evolves-append (e ∷ es) fs = kept (Moves-refl e) (Evolves-append es fs)

remove_first_final-Evolves : (es : List Entry) → Evolves es (remove_first_final es)
unfolding remove_first_final
remove_first_final-Evolves [] = born []
remove_first_final-Evolves (e ∷ es) = elim (Bool-cases (is_final e)) [
  | inl h ↦ rw h (dropped e (Moves-refl e) h (Evolves-refl es))
  | inr h ↦ rw h (kept (Moves-refl e) (remove_first_final-Evolves es))
]

trim_rounds-Evolves : (n : ℕ) (es : List Entry) → Evolves es (trim_rounds n es)
unfolding trim_rounds
trim_rounds-Evolves zero es = Evolves-refl es
trim_rounds-Evolves (suc n) es =
    Evolves-trans (remove_first_final-Evolves es) (trim_rounds-Evolves n (remove_first_final es))

pub trim-Evolves : (es : List Entry) → Evolves es (trim es)
unfolding trim
trim-Evolves es = trim_rounds-Evolves (finals_count es - max_results) es

expire-Moves : (env : Env) (e : Entry) → Moves e (expire env e).0
unfolding expire
expire-Moves env e = ground arith

pub expire_all-Evolves : (env : Env) (es : List Entry) → Evolves es (expire_all env es).0
unfolding expire_all
expire_all-Evolves env [] = born []
expire_all-Evolves env (e ∷ es) = kept (expire-Moves env e) (expire_all-Evolves env es)

overflow-Moves : (env : Env) (e : Entry) → is_final e ≡ false → Moves e (overflow env e)
unfolding overflow
overflow-Moves env e h = ground arith

published_not_final : (e : Entry) → is_published e.result.status ≡ true → is_final e ≡ false
published_not_final e h = ground arith

behind_kept-Evolves :
    (e : Entry) (es : List Entry) (o : Option (List Entry))
    → ((gs : List Entry) → o ≡ some gs → Evolves es gs)
    → (fs : List Entry) → behind_kept e o ≡ some fs
    → Evolves (e ∷ es) fs
behind_kept-Evolves e es none ih fs h = cc
behind_kept-Evolves e es (some gs) ih fs h = ground (arith, kept (Moves-refl e) (ih gs refl))

drop_oldest_normal-Evolves :
    (env : Env) (es fs : List Entry) → drop_oldest_normal env es ≡ some fs → Evolves es fs
unfolding drop_oldest_normal
drop_oldest_normal-Evolves env [] fs h = cc
drop_oldest_normal-Evolves env (e ∷ es) fs h =
    elim (Bool-cases (is_normal e.command.priority && is_published e.result.status)) [
      | inl yes' ↦ ground (
        arith,
        kept (overflow-Moves env e (published_not_final e (ground arith))) (Evolves-refl es),
      )
      | inr no' ↦
          behind_kept-Evolves e es (drop_oldest_normal env es) (drop_oldest_normal-Evolves env es)
            fs (rw no' at h)
    ]

pub make_room-Evolves :
    (env : Env) (s t : StateFile) → make_room env s ≡ some t → Evolves s.entries t.entries
unfolding make_room
make_room-Evolves env s t h = elim (Option-cases (drop_oldest_normal env s.entries)) [
  | inl e ↦ ground (arith, Evolves-refl s.entries)
  | inr (es, e) ↦
      ground (arith, Evolves-refl s.entries, drop_oldest_normal-Evolves env s.entries es e)
]

pub append_entry-Evolves :
    (env : Env) (b : Bus) (room : StateFile) (id device : String) (r : CommandRequest)
    → Evolves b.state.entries room.entries
    → Evolves b.state.entries (append_entry env b room id device r).0.state.entries
unfolding append_entry
append_entry-Evolves env b room id device r h = elim (Bool-cases env.persists) [
  | inl yes' ↦
      rw yes' (Evolves-trans h (Evolves-trans (Evolves-append room.entries _) (trim-Evolves _)))
  | inr no' ↦ rw no' (Evolves-refl b.state.entries)
]
