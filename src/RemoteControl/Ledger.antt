-- ===== src/RemoteControl/Ledger.antt =====
-- The ledger of internal/remotecontrol/store.go: its size, and that a command that it has recorded is
-- found again.
use homepi_mon.Common.{
  ℕ, zero, suc, ◌-◌, ◌≤◌, ◌≡◌, refl, ◌∙◌, ap, String, Bool, true, false, inl, inr, List, [], ◌∷◌,
  ◌++◌, Option, none, some, arith, Bool-cases, length, drop, leb, length-append, length-drop,
  if◌then◌else◌, is_some, eq_iff,
}
use homepi_mon.Protocol.Enums.{CommandStatus, final}
use homepi_mon.Protocol.Command.{DisplayCommand}
use homepi_mon.RemoteControl.Store.{
  Store, LedgerRecord, max_records, find, persist, append_record, record_of, late_record,
  accepted_record, with_record, accept_new, accept, reject, completed_record, complete_in,
  complete_found, complete,
}

pub length-append_record :
    (r : LedgerRecord) (rs : List LedgerRecord) → length (append_record r rs) ≤ max_records
unfolding append_record
length-append_record r rs =
    omega (arith, length-drop {0} (length (rs ++ r ∷ []) - max_records) (rs ++ r ∷ []))

drop-append :
    (n : ℕ) (rs : List LedgerRecord) (r : LedgerRecord)
    → n ≤ length rs
    → drop n (rs ++ r ∷ []) ≡ drop n rs ++ r ∷ []
drop-append zero rs r h = refl
drop-append (suc n) [] r h = elim h [ ]
drop-append (suc n) (x ∷ rs) r h = drop-append n rs r (omega arith)

find-drop :
    (id : String) (n : ℕ) (rs : List LedgerRecord) → find id rs ≡ none → find id (drop n rs) ≡ none
unfolding find
find-drop id zero rs h = h
find-drop id (suc n) [] h = h
find-drop id (suc n) (x ∷ rs) h = find-drop id n rs (ground arith)

find-append :
    (id : String) (rs : List LedgerRecord) (r : LedgerRecord)
    → find id rs ≡ none
    → r.command_id ≡ id
    → find id (rs ++ r ∷ []) ≡ some r
unfolding find
find-append id [] r h e = ground (arith, eq_iff r.command_id id)
find-append id (x ∷ rs) r h e = ground (arith, find-append id rs r)

-- The ledger keeps the record that it has just taken.
pub find-append_record :
    (id : String) (r : LedgerRecord) (rs : List LedgerRecord)
    → find id rs ≡ none
    → r.command_id ≡ id
    → find id (append_record r rs) ≡ some r
unfolding append_record
find-append_record id r rs h e =
    let n = length (rs ++ r ∷ []) - max_records in
    ap (find id) (drop-append n rs r (omega (arith, length-append {0} rs (r ∷ []))))
    ∙ find-append id (drop n rs) r (find-drop id n rs h) e

pub length-complete_in :
    (f : LedgerRecord → LedgerRecord) (id : String) (rs : List LedgerRecord)
    → length (complete_in f id rs) ≡ length rs
unfolding complete_in
length-complete_in f id [] = refl
length-complete_in f id (r ∷ rs) = ground (arith, length-complete_in f id rs)

-- Completing a record changes that record alone, and keeps its id.
pub find-complete_in :
    (f : LedgerRecord → LedgerRecord) (id : String) (rs : List LedgerRecord) (r : LedgerRecord)
    → ((x : LedgerRecord) → (f x).command_id ≡ x.command_id)
    → find id rs ≡ some r
    → find id (complete_in f id rs) ≡ some (f r)
unfolding find complete_in
find-complete_in f id [] r k h = cc
find-complete_in f id (x ∷ rs) r k h = ground (arith, find-complete_in f id rs r k, k x)

pub find-other :
    (f : LedgerRecord → LedgerRecord) (id other : String) (rs : List LedgerRecord)
    → ((x : LedgerRecord) → (f x).command_id ≡ x.command_id)
    → is_some (find other (complete_in f id rs)) ≡ is_some (find other rs)
unfolding find complete_in
find-other f id other [] k = refl
find-other f id other (x ∷ rs) k = ground (arith, find-other f id other rs k, k x)

-- At most 256 records, which a start accepts.
abbrev pub IsBounded : Store → Type 0
IsBounded s = length s.state.records ≤ max_records

persist-state : (w : Bool) (s : Store) → (persist w s).0.state ≡ s.state
unfolding persist
persist-state true s = refl
persist-state false s = refl

persist-wrote : (w : Bool) (s : Store) → (persist w s).1 ≡ w
unfolding persist
persist-wrote true s = refl
persist-wrote false s = refl

-- What `accept` answers for a command that the ledger does not know.
pub accept-new :
    (now : ℕ) (w : Bool) (c : DisplayCommand) (epoch : String) (version : ℕ) (s : Store)
    → find c.command_id s.state.records ≡ none
    → let (s', a) = accept now w c epoch version s in
      let late = leb c.sequence s.state.high_sequence in
      let item =
        if late then late_record now c epoch version else accepted_record now c epoch version in
      (s'.state ≡ record {
        high_sequence = if late then s.state.high_sequence else c.sequence;
        records = append_record item s.state.records;
      })
      × (a.item ≡ item)
      × (a.duplicate ≡ false)
      × (a.wrote ≡ w)
unfolding accept accept_new
accept-new now w c epoch version s h =
    let late = late_record now c epoch version in
    let item = accepted_record now c epoch version in
    ground (
      arith,
      persist-state w (with_record late s.state.high_sequence s),
      persist-wrote w (with_record late s.state.high_sequence s),
      persist-state w (with_record item c.sequence s),
      persist-wrote w (with_record item c.sequence s),
    )

pub reject-new :
    (now : ℕ) (w : Bool) (c : DisplayCommand) (status : CommandStatus) (code : String) (s : Store)
    → find c.command_id s.state.records ≡ none
    → let (s', r) = reject now w c status code s in
      let item = record_of now c status code (some now) "" 0 in
      (s'.state ≡ record {
        high_sequence = s.state.high_sequence;
        records = append_record item s.state.records;
      })
      × (r ≡ item)
unfolding reject
reject-new now w c status code s h =
    let item = record_of now c status code (some now) "" 0 in
    ground (arith, persist-state w (with_record item s.state.high_sequence s))

-- What `complete` does to the records, and what it answers.
pub complete-found :
    (now : ℕ) (w : Bool) (id : String) (status : CommandStatus) (code : String) (s : Store)
    (r : LedgerRecord)
    → find id s.state.records ≡ some r
    → final r.result.status ≡ false
    → let f = completed_record now status code in
      let (s', o) = complete now w id status code s in
      (s'.state ≡ record {
        high_sequence = s.state.high_sequence;
        records = complete_in f id s.state.records;
      })
      × (o ≡ (if w then some (f r) else none))
unfolding complete
complete-found now w id status code s r h n =
    let t = record s {
      state = record s.state {
        records = complete_in (completed_record now status code) id s.state.records;
      };
    } in
    ground (arith, persist-state w t, persist-wrote w t)

-- What `complete` never changes: the highest number, the number of records, and which commands are
-- known.
pub record Keeps (s t : Store) : Type 0 where
  pub high_sequence : t.state.high_sequence ≡ s.state.high_sequence
  pub count : length t.state.records ≡ length s.state.records
  pub known : (id : String) → is_some (find id t.state.records) ≡ is_some (find id s.state.records)

complete_found-Keeps :
    (w : Bool) (f : LedgerRecord → LedgerRecord) (id : String) (s : Store) (o : Option LedgerRecord)
    → ((x : LedgerRecord) → (f x).command_id ≡ x.command_id)
    → Keeps s (complete_found w f id s o).0
complete_found-Keeps w f id s none k = record {
  high_sequence = refl;
  count = refl;
  known = λ _. refl;
}
complete_found-Keeps w f id s (some r) k = elim (Bool-cases (final r.result.status)) [
  | inl done ↦
      rw (done, complete_found) (record { high_sequence = refl; count = refl; known = λ _. refl })
  | inr open' ↦
      rw (open', complete_found)
        (record {
          high_sequence = ap (λ t. t.high_sequence) (persist-state w changed);
          count =
              ap (λ t. length t.records) (persist-state w changed)
              ∙ length-complete_in f id s.state.records;
          known = λ other.
              ap (λ t. is_some (find other t.records)) (persist-state w changed)
              ∙ find-other f id other s.state.records k;
        })
]
  where
    changed : Store
    changed = record s { state = record s.state { records = complete_in f id s.state.records } }

pub complete-Keeps :
    (now : ℕ) (w : Bool) (id : String) (status : CommandStatus) (code : String) (s : Store)
    → Keeps s (complete now w id status code s).0
unfolding complete completed_record
complete-Keeps now w id status code s =
    complete_found-Keeps w (completed_record now status code) id s (find id s.state.records)
      (λ _. refl)
