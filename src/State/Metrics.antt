-- ===== src/State/Metrics.antt =====
-- `applyMetrics` and `ApplyConnectorError` of internal/state/current.go. A range over a map takes its
-- entries in the order of the table; a loop that deletes from the map runs over the entries that were
-- there at its start.
use homepi_mon.Common.{
  ℕ, suc, String, Bool, true, false, not, ◌&&◌, ◌||◌, List, [], ◌∷◌, Option, none, some, leb, ltb,
  str_eq, text_mem, map, if◌then◌else◌, Result, ok, err,
}
use homepi_mon.Common.Int.{pos}
use homepi_mon.Common.Table.{Table, lookup, insert, delete}
use homepi_mon.Protocol.Enums.{
  ErrorClass, no_error, other_status, error_class_same, error_class_valid,
}
use homepi_mon.Protocol.Snapshot.{ProviderMetric, HomeLabNode, HomeLabService}
use homepi_mon.Protocol.Validate.{Check, validate_metric, validate_each}
use homepi_mon.State.Current.{Current, StateError, no_connector, bad_error_class, invalid, bump}

-- `prev, ok := observedSeq[id]; ok && seq <= prev`: a reading that is not newer than the stored one.
abbrev pub outdated : ℕ → Option ℕ → Bool
outdated seq none = false
outdated seq (some prev) = leb seq prev

abbrev pub is_outdated : ℕ → String → Current → Bool
is_outdated seq id c = outdated seq (lookup id c.observed_seq)

-- A metric that a newer batch of its connector lacks goes; its sequence number stays behind.
unfoldable pub remove_metric : ℕ → String → Current → Current
remove_metric seq id c = record c {
  metrics = delete id c.metrics;
  metric_owners = delete id c.metric_owners;
  observed_seq = insert id seq c.observed_seq;
}

abbrev pub counted : Bool → Current × ℕ → Current × ℕ
counted true (c, n) = (c, suc n)
counted false (c, n) = (c, n)

-- One round of the loop over the owners.
abbrev pub removes : String → ℕ → List String → String × String → Current → Bool
removes connector seq seen (id, owner) c =
    str_eq owner connector && not (text_mem id seen) && not (is_outdated seq id c)

-- The loop; with the state comes the number of metrics removed.
unfoldable pub remove_absent :
    String → ℕ → List String → List (String × String) → Current → Current × ℕ
unfolding remove_metric
remove_absent connector seq seen [] c = (c, 0)
remove_absent connector seq seen ((id, owner) ∷ rest) c =
    let r = removes connector seq seen (id, owner) c in
    let next = if r then remove_metric seq id c else c in
    counted r (remove_absent connector seq seen rest next)

-- A batch without a connector leaves the owners alone.
unfoldable pub store_metric : String → ℕ → ProviderMetric → Current → Current
store_metric connector seq m c = record c {
  observed_seq = insert m.id seq c.observed_seq;
  metrics = insert m.id m c.metrics;
  metric_owners =
      if str_eq connector "" then c.metric_owners else insert m.id connector c.metric_owners;
}

-- The loop over the batch, with the number of metrics stored.
unfoldable pub store_newer : String → ℕ → List ProviderMetric → Current → Current × ℕ
unfolding store_metric
store_newer connector seq [] c = (c, 0)
store_newer connector seq (m ∷ ms) c =
    let fresh = not (is_outdated seq m.id c) in
    let next = if fresh then store_metric connector seq m c else c in
    counted fresh (store_newer connector seq ms next)

abbrev pub bump_if : Bool → Current → Current
bump_if true c = record c { version = bump c.version }
bump_if false c = c

unfoldable pub apply_valid : String → ℕ → List ProviderMetric → Current → Current × ℕ
apply_valid connector seq metrics c =
    let ids = map (λ m. m.id) metrics in
    let (kept, removed) =
      if str_eq connector "" then (c, 0) else remove_absent connector seq ids c.metric_owners c in
    let (stored, applied) = store_newer connector seq metrics kept in
    (bump_if (ltb 0 applied || ltb 0 removed) stored, applied)

abbrev pub apply_checked : Check → Current → Current × ℕ → Current × Result StateError ℕ
apply_checked (err field) c done = (c, err (invalid field))
apply_checked (ok _) c (c', n) = (c', ok n)

-- `applyMetrics`; `ApplyMetrics` calls it with no connector.
unfoldable pub apply_metrics :
    Current → String → ℕ → List ProviderMetric → Current × Result StateError ℕ
apply_metrics c connector seq metrics =
    apply_checked (validate_each validate_metric (λ m. m.id) "id" [] metrics) c
      (apply_valid connector seq metrics c)

unfoldable pub apply_connector_metrics :
    Current → String → ℕ → List ProviderMetric → Current × Result StateError ℕ
apply_connector_metrics c connector seq metrics =
    if str_eq connector "" then (c, err no_connector) else apply_metrics c connector seq metrics

-- A failed collection marks the last good values of the connector's metrics.
abbrev pub annotate : ErrorClass → String → ProviderMetric → ProviderMetric
annotate class message m = record m { error_class = class; message = message }

-- The annotation that a metric already has is left.
abbrev pub has_annotation : ErrorClass → String → ProviderMetric → Bool
has_annotation class message m = error_class_same m.error_class class && str_eq m.message message

-- What the loop does with one owned metric: nothing, an annotated metric, or the refusal of an
-- annotation that does not validate. A missing metric would be a zero value, whose id is refused.
unfoldable pub annotated :
    ErrorClass → String → Option ProviderMetric → Result String (Option ProviderMetric)
annotated class message none = err "id"
annotated class message (some m) =
    if has_annotation class message m
    then ok none
    else elim (validate_metric (annotate class message m)) [
      | err field ↦ err field
      | ok _ ↦ ok (some (annotate class message m))
    ]

abbrev pub go_on :
    String
    → Result String (Option ProviderMetric)
    → Table ProviderMetric
    → ℕ
    → (Table ProviderMetric → ℕ → Table ProviderMetric × Result String ℕ)
    → Table ProviderMetric × Result String ℕ
go_on id (err field) t n rest = (t, err field)
go_on id (ok none) t n rest = rest t n
go_on id (ok (some m)) t n rest = rest (insert id m t) (suc n)

-- The loop over the owners of metrics, which a refusal stops where it is.
unfoldable pub annotate_metrics :
    String
    → ErrorClass
    → String
    → List (String × String)
    → Table ProviderMetric
    → ℕ
    → Table ProviderMetric × Result String ℕ
unfolding annotated
annotate_metrics connector class message [] t n = (t, ok n)
annotate_metrics connector class message ((id, owner) ∷ owners) t n =
    let step = if str_eq owner connector then annotated class message (lookup id t) else ok none in
    go_on id step t n (annotate_metrics connector class message owners)

abbrev pub or_zero {ℓ} : {A : Type ℓ} → A → Option A → A
or_zero zero_value none = zero_value
or_zero zero_value (some a) = a

-- The loops over nodes and services validate nothing. `zero_value` stands for an entity that an owner
-- has and the map has not.
unfoldable pub annotate_entities {ℓ} :
    {A : Type ℓ}
    → A
    → (A → Bool)
    → (A → A)
    → String
    → List (String × String)
    → Table A
    → ℕ
    → Table A × ℕ
annotate_entities zero_value has mark connector [] t n = (t, n)
annotate_entities zero_value has mark connector ((id, owner) ∷ owners) t n =
    let e = or_zero zero_value (lookup id t) in
    let skip = not (str_eq owner connector) || has e in
    annotate_entities zero_value has mark connector owners
      (if skip then t else insert id (mark e) t) (if skip then n else suc n)

abbrev pub mark_node : ErrorClass → String → HomeLabNode → HomeLabNode
mark_node class message n = record n { error_class = class; message = message }

abbrev pub mark_service : ErrorClass → String → HomeLabService → HomeLabService
mark_service class message s = record s { error_class = class; message = message }

abbrev pub zero_node : HomeLabNode
zero_node = record {
  id = "";
  name = "";
  online = none;
  cpu_percent = none;
  memory_percent = none;
  disk_percent = none;
  network_receive_bps = none;
  network_transmit_bps = none;
  observed_at = 0;
  stale_after = pos 0;
  status = other_status "";
  error_class = no_error;
  message = "";
  order = pos 0;
}

abbrev pub zero_service : HomeLabService
zero_service = record {
  id = "";
  name = "";
  kind = "";
  version = "";
  api_generation = "";
  healthy = none;
  firing_alerts = none;
  environments_total = none;
  environments_online = none;
  containers_running = none;
  containers_stopped = none;
  containers_failed = none;
  stacks = none;
  observed_at = 0;
  stale_after = pos 0;
  status = other_status "";
  error_class = no_error;
  message = "";
  order = pos 0;
}

-- After the metrics: the nodes, the services, and the version if anything changed.
unfoldable pub annotate_rest : Current → String → ErrorClass → String → ℕ → Current × ℕ
unfolding annotate_entities
annotate_rest c connector class message n =
    let (nodes, n1) =
      annotate_entities zero_node
        (λ e. error_class_same e.error_class class && str_eq e.message message)
        (mark_node class message) connector c.node_owners c.nodes n in
    let (services, n2) =
      annotate_entities zero_service
        (λ e. error_class_same e.error_class class && str_eq e.message message)
        (mark_service class message) connector c.service_owners c.services n1 in
    (bump_if (ltb 0 n2) (record c { nodes = nodes; services = services }), n2)

abbrev pub annotated_state :
    Current
    → String
    → ErrorClass
    → String
    → Table ProviderMetric × Result String ℕ
    → Current × Result StateError ℕ
annotated_state c connector class message (t, err field) =
    (record c { metrics = t }, err (invalid field))
annotated_state c connector class message (t, ok n) =
    let (c', n') = annotate_rest (record c { metrics = t }) connector class message n in (c', ok n')

unfoldable pub apply_connector_error :
    Current → String → ErrorClass → String → Current × Result StateError ℕ
apply_connector_error c connector class message =
    if str_eq connector ""
    then (c, err no_connector)
    else if error_class_same class no_error || not (error_class_valid class)
    then (c, err bad_error_class)
    else annotated_state c connector class message
        (annotate_metrics connector class message c.metric_owners c.metrics 0)
