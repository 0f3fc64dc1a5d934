-- ===== src/CommandBus/Counts.antt =====
-- How the passes of internal/commandbus/bus.go change the numbers of pending and final entries.
use homepi_mon.Common.{
  ℕ, zero, suc, ◌+◌, ◌-◌, ◌++◌, ◌≤◌, ◌≡◌, refl, true, false, inl, inr, List, [], ◌∷◌, some, arith,
  Bool-cases, Option-cases, str_eq, String,
}
use homepi_mon.Protocol.Enums.{final, is_published}
use homepi_mon.Protocol.Command.{CommandResult}
use homepi_mon.CommandBus.Entries.{
  Entry, Env, is_final, pending_count, finals_count, drop_oldest_normal, expire, expire_all,
  remove_first_final, trim_rounds, trim, max_results, overflow,
}
use homepi_mon.CommandBus.{
  Recording, missing, refused, unchanged, recorded, behind, store_result, record_entry, record_in,
}

abbrev pub total : List Entry → ℕ
total es = pending_count es + finals_count es

pub pending_count-append :
    (xs ys : List Entry) → pending_count (xs ++ ys) ≡ pending_count xs + pending_count ys
unfolding pending_count
pending_count-append [] ys = omega arith
pending_count-append (x ∷ xs) ys = ground (arith, pending_count-append xs ys)

pub finals_count-append :
    (xs ys : List Entry) → finals_count (xs ++ ys) ≡ finals_count xs + finals_count ys
unfolding finals_count
finals_count-append [] ys = omega arith
finals_count-append (x ∷ xs) ys = ground (arith, finals_count-append xs ys)

pub remove_first_final-counts :
    (es : List Entry)
    → (pending_count (remove_first_final es) ≡ pending_count es)
      × (finals_count (remove_first_final es) ≡ finals_count es - 1)
unfolding remove_first_final pending_count finals_count
remove_first_final-counts [] = (refl, refl)
remove_first_final-counts (e ∷ es) = ground (arith, remove_first_final-counts es)

trim_rounds-counts :
    (n : ℕ) (es : List Entry)
    → (pending_count (trim_rounds n es) ≡ pending_count es)
      × (finals_count (trim_rounds n es) ≡ finals_count es - n)
unfolding trim_rounds
trim_rounds-counts zero es = (refl, omega arith)
trim_rounds-counts (suc n) es =
    omega (arith, remove_first_final-counts es, trim_rounds-counts n (remove_first_final es))

-- Trimming keeps every pending entry and at most 256 final ones.
pub trim-counts :
    (es : List Entry)
    → (pending_count (trim es) ≡ pending_count es)
      × (finals_count (trim es) ≤ finals_count es)
      × (finals_count (trim es) ≤ max_results)
unfolding trim
trim-counts es = omega (arith, trim_rounds-counts (finals_count es - max_results) es)

expire-counts : (env : Env) (e : Entry) → is_final e ≡ true → is_final (expire env e).0 ≡ true
unfolding expire
expire-counts env e h = ground arith

pub expire_all-counts :
    (env : Env) (es : List Entry)
    → (pending_count (expire_all env es).0 ≤ pending_count es)
      × (total (expire_all env es).0 ≡ total es)
unfolding expire_all pending_count finals_count
expire_all-counts env [] = omega arith
expire_all-counts env (e ∷ es) = ground (arith, expire-counts env e, expire_all-counts env es)

overflow-counts :
    (env : Env) (e : Entry)
    → is_published e.result.status ≡ true
    → (is_final e ≡ false) × (is_final (overflow env e) ≡ true)
unfolding overflow
overflow-counts env e h = ground arith

pub drop_oldest_normal-counts :
    (env : Env) (es fs : List Entry)
    → drop_oldest_normal env es ≡ some fs
    → (pending_count fs + 1 ≡ pending_count es) × (total fs ≡ total es)
unfolding drop_oldest_normal pending_count finals_count
drop_oldest_normal-counts env [] fs h = cc
drop_oldest_normal-counts env (e ∷ es) fs h = elim (Option-cases (drop_oldest_normal env es)) [
  | inl q ↦ ground (arith, overflow-counts env e)
  | inr (gs, q) ↦ ground (arith, overflow-counts env e, drop_oldest_normal-counts env es gs q)
]

store_result-is_final :
    (env : Env) (r : CommandResult) (e : Entry) → is_final (store_result env r e) ≡ final r.status
unfolding store_result
store_result-is_final env r e = refl

abbrev pub CountsKept : List Entry → Recording → Type 0
CountsKept es (recorded e fs first) = (pending_count fs ≤ pending_count es) × (total fs ≡ total es)
CountsKept es _ = Unit {0}

record_entry-counts :
    (env : Env) (device : String) (r : CommandResult) (e : Entry) (es : List Entry)
    → CountsKept (e ∷ es) (record_entry env device r e es)
unfolding record_entry pending_count finals_count
record_entry-counts env device r e es = ground (arith, store_result-is_final env r e)

behind-counts :
    (e : Entry) (es : List Entry) (o : Recording)
    → CountsKept es o
    → CountsKept (e ∷ es) (behind e o)
unfolding pending_count finals_count
behind-counts e es missing h = tt
behind-counts e es (refused x) h = tt
behind-counts e es (unchanged x) h = tt
behind-counts e es (recorded x fs first) h = ground arith

pub record_in-counts :
    (env : Env) (device : String) (r : CommandResult) (es : List Entry)
    → CountsKept es (record_in env device r es)
unfolding record_in
record_in-counts env device r [] = tt
record_in-counts env device r (e ∷ es) =
    elim (Bool-cases (str_eq e.command.command_id r.command_id)) [
      | inl here ↦ rw here (record_entry-counts env device r e es)
      | inr later ↦
          rw later
            (behind-counts e es (record_in env device r es) (record_in-counts env device r es))
    ]
