-- ===== src/State/Faults.antt =====
-- What `ApplyConnectorError` of internal/state/current.go does to the stored metrics.
use homepi_mon.Common.{
  ℕ, suc, ◌||◌, not, ◌≡◌, refl, sym, subst, ◌∙◌, ap, String, Bool, true, false, inl, inr, List, [],
  ◌∷◌, Option, none, some, arith, Bool-cases, str_eq, eq_iff, if◌then◌else◌, Result, ok, err,
}
use homepi_mon.Common.Table.{Table, lookup, insert, lookup-insert}
use homepi_mon.Protocol.Enums.{ErrorClass, error_class_same, error_class_valid, no_error}
use homepi_mon.Protocol.Snapshot.{ProviderMetric}
use homepi_mon.Protocol.Validate.{validate_metric}
use homepi_mon.State.Current.{Current, StateError, no_connector, bad_error_class}
use homepi_mon.State.Metrics.{
  annotate, annotated, go_on, annotate_metrics, annotate_rest, annotated_state,
  apply_connector_error,
}

-- A stored metric is as it was, or it differs in its error class and message alone and validates.
pub data Marks (class : ErrorClass) (message : String) (o o' : Option ProviderMetric) : Type 0 where
  untouched : o' ≡ o → Marks class message o o'
  marked :
      (m : ProviderMetric)
      → o ≡ some m
      → o' ≡ some (annotate class message m)
      → validate_metric (annotate class message m) ≡ ok tt
      → Marks class message o o'

Marks-trans :
    (class : ErrorClass) (message : String) (o p q : Option ProviderMetric)
    → Marks class message o p
    → Marks class message p q
    → Marks class message o q
Marks-trans class message o p q (untouched e) (untouched f) = untouched (f ∙ e)
Marks-trans class message o p q (untouched e) (marked m f g v) = marked m (sym e ∙ f) g v
Marks-trans class message o p q (marked m e f v) (untouched g) = marked m e (g ∙ f) v
Marks-trans class message o p q (marked m e f v) (marked n g h w) =
    marked m e (h ∙ ap (λ k. some (annotate class message k)) (some_eq (sym g ∙ f))) v
  where
    some_eq : some n ≡ some (annotate class message m) → n ≡ annotate class message m
    some_eq e' = cc

annotated-Marks :
    (class : ErrorClass) (message : String) (o : Option ProviderMetric) (m : ProviderMetric)
    → annotated class message o ≡ ok (some m)
    → Marks class message o (some m)
unfolding annotated
annotated-Marks class message none m h = cc
annotated-Marks class message (some k) m h = marked k refl (ground arith) (ground arith)

go_on-Marks :
    (class : ErrorClass) (message : String) (id other : String)
    (o : Result String (Option ProviderMetric)) (t : Table ProviderMetric) (n : ℕ)
    (rest : Table ProviderMetric → ℕ → Table ProviderMetric × Result String ℕ)
    → ((m : ProviderMetric) → o ≡ ok (some m) → Marks class message (lookup id t) (some m))
    → ((u : Table ProviderMetric) (k : ℕ)
        → Marks class message (lookup other u) (lookup other (rest u k).0))
    → Marks class message (lookup other t) (lookup other (go_on id o t n rest).0)
go_on-Marks class message id other (err field) t n rest one later = untouched refl
go_on-Marks class message id other (ok none) t n rest one later = later t n
go_on-Marks class message id other (ok (some m)) t n rest one later =
    Marks-trans class message (lookup other t) (lookup other (insert id m t)) _
      (subst (Marks class message (lookup other t)) (sym (lookup-insert id other m t)) here)
      (later (insert id m t) (suc n))
  where
    here : Marks class message (lookup other t) (if str_eq id other then some m else lookup other t)
    here = elim (Bool-cases (str_eq id other)) [
      | inl e ↦ simp e (
          subst (λ (k : String). Marks class message (lookup k t) (some m)) ((eq_iff id other).0 e)
            (one m refl))
      | inr e ↦ simp e (untouched refl)
    ]

if-ok :
    (b : Bool) (r : Result String (Option ProviderMetric)) (m : ProviderMetric)
    → (if b then r else ok none) ≡ ok (some m)
    → r ≡ ok (some m)
if-ok true r m h = h
if-ok false r m h = cc

annotate_metrics-Marks :
    (connector : String) (class : ErrorClass) (message : String) (owners : List (String × String))
    (other : String) (t : Table ProviderMetric) (n : ℕ)
    → Marks class message
        (lookup other t)
        (lookup other (annotate_metrics connector class message owners t n).0)
unfolding annotate_metrics
annotate_metrics-Marks connector class message [] other t n = untouched refl
annotate_metrics-Marks connector class message ((id, owner) ∷ owners) other t n =
    go_on-Marks class message id other _ t n (annotate_metrics connector class message owners)
      (λ m h.
        annotated-Marks class message (lookup id t) m
          (if-ok (str_eq owner connector) (annotated class message (lookup id t)) m h))
      (λ u k. annotate_metrics-Marks connector class message owners other u k)

annotate_rest-metrics :
    (c : Current) (connector : String) (class : ErrorClass) (message : String) (n : ℕ)
    → (annotate_rest c connector class message n).0.metrics ≡ c.metrics
unfolding annotate_rest
annotate_rest-metrics c connector class message n = ground arith

annotated_state-metrics :
    (c : Current) (connector : String) (class : ErrorClass) (message : String)
    (t : Table ProviderMetric) (o : Result String ℕ)
    → (annotated_state c connector class message (t, o)).0.metrics ≡ t
annotated_state-metrics c connector class message t (err field) = refl
annotated_state-metrics c connector class message t (ok n) =
    annotate_rest-metrics (record c { metrics = t }) connector class message n

-- A guard that leaves the state as it is keeps the claim.
guarded-Marks :
    (class : ErrorClass) (message id : String) (c : Current) (b : Bool) (e : StateError)
    (r : Current × Result StateError ℕ)
    → Marks class message (lookup id c.metrics) (lookup id r.0.metrics)
    → Marks class message (lookup id c.metrics) (lookup id (if b then (c, err e) else r).0.metrics)
guarded-Marks class message id c true e r h = untouched refl
guarded-Marks class message id c false e r h = h

-- A failed collection loses no reading and changes no value: every stored metric is as it was, or has
-- the error class and the message of the failure and nothing else changed, and then it still
-- validates.
pub apply_connector_error-Marks :
    (c : Current) (connector : String) (class : ErrorClass) (message id : String)
    → Marks class message
        (lookup id c.metrics)
        (lookup id (apply_connector_error c connector class message).0.metrics)
unfolding apply_connector_error
apply_connector_error-Marks c connector class message id =
    let batch = annotate_metrics connector class message c.metric_owners c.metrics 0 in
    guarded-Marks class message id c (str_eq connector "") no_connector _ (
      guarded-Marks class message id c
        (error_class_same class no_error || not (error_class_valid class)) bad_error_class
        (annotated_state c connector class message batch)
        (subst
          (λ (t : Table ProviderMetric). Marks class message (lookup id c.metrics) (lookup id t))
          (sym (annotated_state-metrics c connector class message batch.0 batch.1))
          (annotate_metrics-Marks connector class message c.metric_owners id c.metrics 0)))
