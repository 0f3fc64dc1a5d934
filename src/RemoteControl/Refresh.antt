-- ===== src/RemoteControl/Refresh.antt =====
-- Which refreshes `SnapshotApplied` of internal/remotecontrol/controller.go completes.
use homepi_mon.Common.{
  ℕ, ◌≡◌, refl, sym, ap, String, Bool, true, false, inl, inr, List, [], ◌∷◌, none, some, arith,
  Bool-cases, Option-cases, if◌then◌else◌, str_eq, eq_iff,
}
use homepi_mon.Protocol.Enums.{CommandStatus, final}
use homepi_mon.Protocol.Snapshot.{MetricSnapshot}
use homepi_mon.RemoteControl.Store.{
  Store, LedgerRecord, find, complete, complete_in, complete_found, completed_record,
  pending_refreshes,
}
use homepi_mon.RemoteControl.Ledger.{complete-found, find-other}
use homepi_mon.RemoteControl.Controller.{Controller, advanced}

-- No two records have the same id: a record is appended only where its id is not found.
abbrev pub IsDistinct : List LedgerRecord → Type 0
IsDistinct [] = Unit
IsDistinct (r ∷ rs) = (find r.command_id rs ≡ none) × IsDistinct rs

-- The records without those that carry an id.
abbrev without : String → List LedgerRecord → List LedgerRecord
without id [] = []
without id (r ∷ rs) = let rest = without id rs in if str_eq r.command_id id then rest else r ∷ rest

-- The refreshes for which the snapshot is not new enough.
abbrev pub still_waiting : MetricSnapshot → List LedgerRecord → List LedgerRecord
still_waiting s [] = []
still_waiting s (r ∷ rs) = let rest = still_waiting s rs in if advanced s r then rest else r ∷ rest

without-absent : (id : String) (rs : List LedgerRecord) → find id rs ≡ none → without id rs ≡ rs
unfolding find
without-absent id [] h = refl
without-absent id (r ∷ rs) h = ground (arith, without-absent id rs)

pending-absent :
    (id : String) (rs : List LedgerRecord)
    → find id rs ≡ none
    → find id (pending_refreshes rs) ≡ none
unfolding find pending_refreshes
pending-absent id [] h = refl
pending-absent id (r ∷ rs) h = ground (arith, pending-absent id rs)

-- To complete a record takes it out of the pending refreshes.
complete_in-pending :
    (f : LedgerRecord → LedgerRecord) (id : String) (rs : List LedgerRecord)
    → ((x : LedgerRecord) → (f x).pending_refresh ≡ false)
    → IsDistinct rs
    → pending_refreshes (complete_in f id rs) ≡ without id (pending_refreshes rs)
unfolding complete_in pending_refreshes
complete_in-pending f id [] k d = refl
complete_in-pending f id (r ∷ rs) k d = elim (Bool-cases (str_eq r.command_id id)) [
  | inl here ↦ ground (
    arith,
    here,
    k r,
    eq_iff r.command_id id,
    d.0,
    pending-absent r.command_id rs d.0,
    without-absent id (pending_refreshes rs),
  )
  | inr there ↦ ground (arith, there, complete_in-pending f id rs k d.1)
]

complete_in-IsDistinct :
    (f : LedgerRecord → LedgerRecord) (id : String) (rs : List LedgerRecord)
    → ((x : LedgerRecord) → (f x).command_id ≡ x.command_id)
    → IsDistinct rs
    → IsDistinct (complete_in f id rs)
unfolding complete_in
complete_in-IsDistinct f id [] k d = tt
complete_in-IsDistinct f id (r ∷ rs) k d = elim (Bool-cases (str_eq r.command_id id)) [
  | inl here ↦ rw here (rw (k r) d.0, d.1)
  | inr there ↦
      rw there (
        ground (arith, find-other f id r.command_id rs k, d.0),
        complete_in-IsDistinct f id rs k d.1,
      )
]

-- A final record does not wait, so its id is not among the pending refreshes.
final-pending :
    (id : String) (rs : List LedgerRecord) (r : LedgerRecord)
    → IsDistinct rs
    → find id rs ≡ some r
    → final r.result.status ≡ true
    → find id (pending_refreshes rs) ≡ none
unfolding find pending_refreshes
final-pending id [] r d h f = cc
final-pending id (x ∷ rs) r d h f = elim (Bool-cases (str_eq x.command_id id)) [
  | inl here ↦ ground (arith, here, eq_iff x.command_id id, d.0, pending-absent x.command_id rs d.0)
  | inr there ↦ ground (arith, there, final-pending id rs r d.1)
]

pub record Completes (id : String) (s t : Store) : Type 0 where
  pub distinct : IsDistinct t.state.records
  pub pending : pending_refreshes t.state.records ≡ without id (pending_refreshes s.state.records)

in_place-Completes :
    (now : ℕ) (id : String) (status : CommandStatus) (code : String) (s t : Store)
    → IsDistinct s.state.records
    → t.state.records ≡ complete_in (completed_record now status code) id s.state.records
    → Completes id s t
unfolding completed_record
in_place-Completes now id status code s t d e =
    let f = completed_record now status code in
    record {
      distinct = rw e (complete_in-IsDistinct f id s.state.records (λ _. refl) d);
      pending = rw e (complete_in-pending f id s.state.records (λ _. refl) d);
    }

pub complete-Completes :
    (now : ℕ) (w : Bool) (id : String) (status : CommandStatus) (code : String) (s : Store)
    → IsDistinct s.state.records
    → Completes id s (complete now w id status code s).0
unfolding complete
complete-Completes now w id status code s d =
    let rs = s.state.records in
    elim (Option-cases (find id rs)) [
      | inl gone ↦
          rw (gone, complete_found)
            (record {
              distinct = d;
              pending = sym (without-absent id (pending_refreshes rs) (pending-absent id rs gone));
            })
      | inr (r, there) ↦ elim (Bool-cases (final r.result.status)) [
        | inl done ↦
            rw (there, complete_found)
              (rw done (record {
                distinct = d;
                pending =
                    sym (
                      without-absent id (pending_refreshes rs)
                        (final-pending id rs r d there done));
              }))
        | inr runs ↦
            in_place-Completes now id status code s (complete now w id status code s).0 d
              (ap (λ t. t.records) (complete-found now w id status code s r there runs).0)
      ]
    ]

-- The pending refreshes without those of a list for which the snapshot is new enough.
abbrev without_advanced : MetricSnapshot → List LedgerRecord → List LedgerRecord → List LedgerRecord
without_advanced s [] ps = ps
without_advanced s (r ∷ rs) ps =
    without_advanced s rs (if advanced s r then without r.command_id ps else ps)
