-- ===== src/State/Order.antt =====
-- Late results in internal/state/current.go.
use homepi_mon.Common.{
  ℕ, ◌≡◌, refl, sym, subst, ◌∙◌, ap, String, Bool, true, false, not, inl, inr, List, [], ◌∷◌, some,
  arith, Bool-cases, str_eq, eq_iff, map, if◌then◌else◌, ok, err,
}
use homepi_mon.Common.Table.{lookup, lookup-insert, lookup-delete}
use homepi_mon.Protocol.Snapshot.{ProviderMetric}
use homepi_mon.Protocol.Validate.{validate_metric, validate_each}
use homepi_mon.State.Current.{Current}
use homepi_mon.State.Metrics.{
  outdated, is_outdated, remove_metric, counted, removes, remove_absent, store_metric, store_newer,
  bump_if, apply_valid, apply_checked, apply_metrics,
}

-- The entries of one metric are as they were.
pub record SameEntry (id : String) (c d : Current) : Type 0 where
  pub metric : lookup id d.metrics ≡ lookup id c.metrics
  pub owner : lookup id d.metric_owners ≡ lookup id c.metric_owners
  pub seq : lookup id d.observed_seq ≡ lookup id c.observed_seq

SameEntry-refl : (id : String) (c : Current) → SameEntry id c c
SameEntry-refl id c = record { metric = refl; owner = refl; seq = refl }

SameEntry-trans :
    (id : String) (c d e : Current) → SameEntry id c d → SameEntry id d e → SameEntry id c e
SameEntry-trans id c d e s t = record {
  metric = t.metric ∙ s.metric;
  owner = t.owner ∙ s.owner;
  seq = t.seq ∙ s.seq;
}

-- The entries of one metric are as they were, or the batch is newer than what was there and has left
-- its number.
pub data Advances (id : String) (seq : ℕ) (c d : Current) : Type 0 where
  same : SameEntry id c d → Advances id seq c d
  newer : is_outdated seq id c ≡ false → lookup id d.observed_seq ≡ some seq → Advances id seq c d

Advances-trans :
    (id : String) (seq : ℕ) (c d e : Current)
    → Advances id seq c d
    → Advances id seq d e
    → Advances id seq c e
Advances-trans id seq c d e (same s) (same t) = same (SameEntry-trans id c d e s t)
Advances-trans id seq c d e (same s) (newer h o) = newer (ap (outdated seq) (sym s.seq) ∙ h) o
Advances-trans id seq c d e (newer h o) (same t) = newer h (t.seq ∙ o)
Advances-trans id seq c d e (newer h o) (newer h' o') = newer h o'

remove_metric-Advances :
    (seq : ℕ) (id other : String) (c : Current)
    → is_outdated seq id c ≡ false
    → Advances other seq c (remove_metric seq id c)
unfolding remove_metric
remove_metric-Advances seq id other c h = elim (Bool-cases (str_eq id other)) [
  | inl here ↦
      newer (ground (arith, eq_iff id other)) (rw (lookup-insert id other seq c.observed_seq, here))
  | inr there ↦ same (record {
    metric = rw (lookup-delete id other c.metrics, there);
    owner = rw (lookup-delete id other c.metric_owners, there);
    seq = rw (lookup-insert id other seq c.observed_seq, there);
  })
]

store_metric-Advances :
    (connector : String) (seq : ℕ) (m : ProviderMetric) (other : String) (c : Current)
    → is_outdated seq m.id c ≡ false
    → Advances other seq c (store_metric connector seq m c)
unfolding store_metric
store_metric-Advances connector seq m other c h = elim (Bool-cases (str_eq m.id other)) [
  | inl here ↦
      newer (ground (arith, eq_iff m.id other))
        (rw (lookup-insert m.id other seq c.observed_seq, here))
  | inr there ↦ same (record {
    metric = rw (lookup-insert m.id other m c.metrics, there);
    owner = ground (arith, lookup-insert m.id other connector c.metric_owners);
    seq = rw (lookup-insert m.id other seq c.observed_seq, there);
  })
]

counted-state : (b : Bool) (p : Current × ℕ) → (counted b p).0 ≡ p.0
counted-state true p = refl
counted-state false p = refl

-- A conditional step advances if the step does.
step-Advances :
    (id : String) (seq : ℕ) (b : Bool) (c d : Current)
    → (b ≡ true → Advances id seq c d)
    → Advances id seq c (if b then d else c)
step-Advances id seq true c d h = h refl
step-Advances id seq false c d h = same (SameEntry-refl id c)

removes-newer :
    (connector : String) (seq : ℕ) (seen : List String) (entry : String × String) (c : Current)
    → removes connector seq seen entry c ≡ true
    → is_outdated seq entry.0 c ≡ false
removes-newer connector seq seen (e, owner) c h = ground arith

remove_absent-Advances :
    (connector : String) (seq : ℕ) (seen : List String) (owners : List (String × String))
    (id : String) (c : Current)
    → Advances id seq c (remove_absent connector seq seen owners c).0
unfolding remove_absent
remove_absent-Advances connector seq seen [] id c = same (SameEntry-refl id c)
remove_absent-Advances connector seq seen ((e, owner) ∷ owners) id c =
    let r = removes connector seq seen (e, owner) c in
    let next = if r then remove_metric seq e c else c in
    subst (Advances id seq c) (sym (counted-state r (remove_absent connector seq seen owners next)))
      (Advances-trans id seq c next (remove_absent connector seq seen owners next).0
        (step-Advances id seq r c (remove_metric seq e c) (λ h.
          remove_metric-Advances seq e id c (removes-newer connector seq seen (e, owner) c h)))
        (remove_absent-Advances connector seq seen owners id next))

store_newer-Advances :
    (connector : String) (seq : ℕ) (ms : List ProviderMetric) (id : String) (c : Current)
    → Advances id seq c (store_newer connector seq ms c).0
unfolding store_newer
store_newer-Advances connector seq [] id c = same (SameEntry-refl id c)
store_newer-Advances connector seq (m ∷ ms) id c =
    let fresh = not (is_outdated seq m.id c) in
    let next = if fresh then store_metric connector seq m c else c in
    subst (Advances id seq c) (sym (counted-state fresh (store_newer connector seq ms next))) (
      Advances-trans id seq c next (store_newer connector seq ms next).0
        (step-Advances id seq fresh c (store_metric connector seq m c)
          (λ h. store_metric-Advances connector seq m id c (ground arith)))
        (store_newer-Advances connector seq ms id next))

bump_if-Advances :
    (id : String) (seq : ℕ) (b : Bool) (c d : Current)
    → Advances id seq c d
    → Advances id seq c (bump_if b d)
bump_if-Advances id seq true c d (same s) =
    same (record { metric = s.metric; owner = s.owner; seq = s.seq })
bump_if-Advances id seq true c d (newer h o) = newer h o
bump_if-Advances id seq false c d a = a

removal-Advances :
    (connector : String) (seq : ℕ) (seen : List String) (id : String) (c : Current) (b : Bool)
    → Advances id seq c (if b then (c, 0) else remove_absent connector seq seen c.metric_owners c).0
removal-Advances connector seq seen id c true = same (SameEntry-refl id c)
removal-Advances connector seq seen id c false =
    remove_absent-Advances connector seq seen c.metric_owners id c

apply_valid-Advances :
    (connector : String) (seq : ℕ) (ms : List ProviderMetric) (id : String) (c : Current)
    → Advances id seq c (apply_valid connector seq ms c).0
unfolding apply_valid
apply_valid-Advances connector seq ms id c =
    let removal =
      if str_eq connector ""
      then (c, 0)
      else remove_absent connector seq (map (λ m. m.id) ms) c.metric_owners c in
    let stored = store_newer connector seq ms removal.0 in
    bump_if-Advances id seq _ c stored.0 (
      Advances-trans id seq c removal.0 stored.0
        (removal-Advances connector seq (map (λ m. m.id) ms) id c (str_eq connector ""))
        (store_newer-Advances connector seq ms id removal.0))

-- Whatever batch is applied, valid or not: each metric's reading, owner and sequence number are as
-- they were, or the batch is newer than all that was stored for the metric, and has left its number.
-- So a late result neither replaces nor removes a newer reading, and numbers never go down.
pub apply_metrics-Advances :
    (c : Current) (connector : String) (seq : ℕ) (ms : List ProviderMetric) (id : String)
    → Advances id seq c (apply_metrics c connector seq ms).0
unfolding apply_metrics
apply_metrics-Advances c connector seq ms id =
    elim (validate_each validate_metric (λ m. m.id) "id" [] ms)
      as (λ v. Advances id seq c (apply_checked v c (apply_valid connector seq ms c)).0) [
        | err field ↦ same (SameEntry-refl id c)
        | ok _ ↦ apply_valid-Advances connector seq ms id c
      ]
