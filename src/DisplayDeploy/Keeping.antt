-- ===== src/DisplayDeploy/Keeping.antt =====
-- internal/displaydeploy/deployer.go: what the commands over SSH and the wait leave alone, and that the
-- wait ends.
use homepi_mon.Common.{
  ℕ, zero, suc, ◌+◌, ◌*◌, ◌≤◌, ◌≡◌, refl, ◌∙◌, Bool, true, false, ◌&&◌, leb, String, Option, none,
  some, ◌∷◌, Result, ok, err, is_some, inl, inr, Bool-cases, if◌then◌else◌, arith,
}
use homepi_mon.Common.Time.{second}
use homepi_mon.DisplayConfig.{safe_host}
use homepi_mon.DisplayDeploy.{Env, Manager, Script, DeployError, cancelled}
use homepi_mon.DisplayDeploy.Probe.{
  RemoteStatus, run, probe, is_none, is_healthy, wait_rounds, wait_fuel, last_error,
}

-- The candidate, the hash of its test and the files are as they were.
abbrev pub Keeps : Manager → Manager → Type 0
Keeps m m' = (m'.candidate ≡ m.candidate) × (m'.tested_hash ≡ m.tested_hash) × (m'.disk ≡ m.disk)

abbrev pub keeps_all : (m : Manager) → Keeps m m
keeps_all m = (refl, refl, refl)

abbrev pub keeps-keeps : (m n o : Manager) → Keeps m n → Keeps n o → Keeps m o
keeps-keeps m n o h k = (k.0 ∙ h.0, k.1 ∙ h.1, k.2 ∙ h.2)

pub run-Keeps :
    (env : Env) (host : String) (script : Script) (stdin : String) (m : Manager)
    → Keeps m (run env host script stdin m).0
unfolding run
run-Keeps env host script stdin m = elim (Bool-cases (safe_host host)) [
  | inl h ↦ rw h (keeps_all m)
  | inr h ↦ rw h (keeps_all m)
]

pub probe-Keeps : (env : Env) (host : String) (m : Manager) → Keeps m (probe env host m).0
unfolding probe run
probe-Keeps env host m = elim (Bool-cases (safe_host host)) [
  | inl h ↦ rw h (keeps_all m)
  | inr h ↦ rw h (keeps_all m)
]

-- A probe that succeeds was of a safe host.
pub probe-safe_host :
    (env : Env) (host : String) (m : Manager)
    → (probe env host m).1.1 ≡ none
    → safe_host host ≡ true
unfolding probe
probe-safe_host env host m e = elim (Bool-cases (safe_host host)) [
  | inl h ↦ h
  | inr h ↦ absurd (ground (arith, e, h))
]

-- A command for a safe host is the last one that ran.
pub commands-run :
    (env : Env) (host : String) (script : Script) (stdin : String) (m : Manager)
    → safe_host host ≡ true
    → (run env host script stdin m).0.commands
      ≡ record { host = host; script = script; stdin = stdin } ∷ m.commands
unfolding run
commands-run env host script stdin m h = rw h refl

abbrev Rounds : Type 0
Rounds = Manager × Option (Result DeployError RemoteStatus)

-- One round of the wait, where a property holds of each of its results.
module _ {ℓ κ} {A : Type ℓ} (P : A → Type κ) where
  round_lem :
      (healthy over done : Bool) (x y z rest : A)
      → (healthy ≡ true → P x)
      → P y
      → P z
      → (over ≡ false → P rest)
      → P (if healthy then x else if over then y else if done then z else rest)
  round_lem true over done x y z rest h k l n = h refl
  round_lem false true done x y z rest h k l n = k
  round_lem false false true x y z rest h k l n = l
  round_lem false false false x y z rest h k l n = n refl

pub wait_rounds-Keeps :
    (fuel : ℕ) (env : Env) (deadline : ℕ) (host : String) (before : RemoteStatus) (round : ℕ)
    (m : Manager)
    → Keeps m (wait_rounds fuel env deadline host before round m).0
unfolding wait_rounds
wait_rounds-Keeps zero env deadline host before round m = keeps_all m
wait_rounds-Keeps (suc fuel) env deadline host before round m =
    let (after, (status, error)) = probe env host m in
    let first : Keeps m after = probe-Keeps env host m in
    let rest = wait_rounds fuel env deadline host before (suc round) after in
    let later : Keeps m rest.0 =
      keeps-keeps m after rest.0 first
        (wait_rounds-Keeps fuel env deadline host before (suc round) after) in
    round_lem (λ r. Keeps m r.0) (is_none error && is_healthy before status)
      (leb deadline (env.clock round)) (env.is_done round) (after, some (ok status))
      (after, some (err (last_error error))) (after, some (err cancelled)) rest (λ _. first) first
      first (λ _. later)

both_true : (a b : Bool) → (a && b) ≡ true → b ≡ true
both_true true b h = h
both_true false b h = absurd (ground (arith, h))

-- What the wait reports is healthy.
abbrev pub found_healthy : RemoteStatus → Option (Result DeployError RemoteStatus) → Bool
found_healthy before none = true
found_healthy before (some (ok r)) = is_healthy before r
found_healthy before (some (err e)) = true

pub wait_rounds-is_healthy :
    (fuel : ℕ) (env : Env) (deadline : ℕ) (host : String) (before : RemoteStatus) (round : ℕ)
    (m : Manager)
    → found_healthy before (wait_rounds fuel env deadline host before round m).1 ≡ true
unfolding wait_rounds
wait_rounds-is_healthy zero env deadline host before round m = refl
wait_rounds-is_healthy (suc fuel) env deadline host before round m =
    let (after, (status, error)) = probe env host m in
    let rest = wait_rounds fuel env deadline host before (suc round) after in
    round_lem (λ r. found_healthy before r.1 ≡ true) (is_none error && is_healthy before status)
      (leb deadline (env.clock round)) (env.is_done round) (after, some (ok status))
      (after, some (err (last_error error))) (after, some (err cancelled)) rest
      (both_true (is_none error) (is_healthy before status)) refl refl
      (λ _. wait_rounds-is_healthy fuel env deadline host before (suc round) after)

rounds_end :
    (fuel : ℕ) (env : Env) (deadline : ℕ) (host : String) (before : RemoteStatus) (round : ℕ)
    (m : Manager)
    → ((n : ℕ) → env.clock (suc n) + second ≤ env.clock (suc (suc n)))
    → deadline ≤ env.clock (suc round) + fuel * second
    → is_some (wait_rounds (suc fuel) env deadline host before (suc round) m).1 ≡ true
unfolding wait_rounds
rounds_end zero env deadline host before round m ticks h =
    let (after, (status, error)) = probe env host m in
    let over : leb deadline (env.clock (suc round)) ≡ true = ground (arith, h) in
    round_lem (λ (r : Rounds). is_some r.1 ≡ true) (is_none error && is_healthy before status)
      (leb deadline (env.clock (suc round))) (env.is_done (suc round)) (after, some (ok status))
      (after, some (err (last_error error))) (after, some (err cancelled)) (after, none) (λ _. refl)
      refl refl (λ early. absurd (ground (arith, over, early)))
rounds_end (suc fuel) env deadline host before round m ticks h =
    let (after, (status, error)) = probe env host m in
    let rest = wait_rounds (suc fuel) env deadline host before (suc (suc round)) after in
    let later =
      rounds_end fuel env deadline host before (suc round) after ticks
        (omega (arith, h, ticks round)) in
    round_lem (λ (r : Rounds). is_some r.1 ≡ true) (is_none error && is_healthy before status)
      (leb deadline (env.clock (suc round))) (env.is_done (suc round)) (after, some (ok status))
      (after, some (err (last_error error))) (after, some (err cancelled)) rest (λ _. refl) refl
      refl (λ _. later)

-- With readings of the clock that are a second apart, the 26 rounds that the model gives the wait are
-- enough: it comes to a result.
pub wait_rounds-is_some :
    (env : Env) (host : String) (before : RemoteStatus) (m : Manager)
    → env.clock 0 ≤ env.clock 1
    → ((n : ℕ) → env.clock (suc n) + second ≤ env.clock (suc (suc n)))
    → is_some (wait_rounds wait_fuel env (env.clock 0 + 25 * second) host before 1 m).1 ≡ true
wait_rounds-is_some env host before m h ticks =
    rounds_end 25 env (env.clock 0 + 25 * second) host before 0 m ticks (omega (arith, h))
