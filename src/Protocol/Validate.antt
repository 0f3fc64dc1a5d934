-- ===== src/Protocol/Validate.antt =====
-- internal/protocol/validate.go and the Validate methods of homelab.go. A refusal carries the name
-- of the field. Where the source ranges over a map of fields, the fields are taken in the order in
-- which the map lists them: the order decides only which name is reported.
use homepi_mon.Common.{
  ℕ, String, Bool, false, not, ◌&&◌, ◌||◌, List, [], ◌∷◌, Option, none, some, ltb, ◌==◌, str_eq,
  length, text_mem, codes, Result, ok, ◌>>◌, refuse,
}
use homepi_mon.Common.Int.{ℤ, pos, ltb_ℤ, eqb_ℤ}
use homepi_mon.Common.Strconv.{cut, atoi}
use homepi_mon.Protocol.Ids.{valid_id, safe_text}
use homepi_mon.Protocol.Enums.{
  ErrorClass, metric_kind_valid, window_valid, precision_valid, source_kind_valid,
  metric_status_valid, error_class_valid, error_class_same, connector_state_valid, no_error,
}
use homepi_mon.Protocol.Snapshot.{
  ProviderMetric, ConnectorHealth, HomeLabNode, HomeLabService, MetricSnapshot,
}

abbrev pub Check : Type 0
Check = Result String (Unit {0})

abbrev pub max_homelab_nodes : ℕ
max_homelab_nodes = 100

abbrev pub max_homelab_services : ℕ
max_homelab_services = 32

-- `class != ErrNone && !class.Valid()`.
abbrev pub bad_class : ErrorClass → Bool
bad_class c = not (error_class_same c no_error) && not (error_class_valid c)

unfoldable pub validate_metric : ProviderMetric → Check
validate_metric m = do
  valid_id "id" m.id
  valid_id "provider" m.provider
  safe_text "account_label" m.account_label 64
  safe_text "display_name" m.display_name 64
  safe_text "unit" m.unit 16
  safe_text "message" m.message 160
  refuse (not (metric_kind_valid m.metric_kind)) "metric_kind"
  refuse (not (window_valid m.window)) "window"
  refuse (not (precision_valid m.precision)) "precision"
  refuse (not (source_kind_valid m.source_kind)) "source_kind"
  refuse (not (metric_status_valid m.status)) "status"
  refuse (bad_class m.error_class) "error_class"
  refuse (m.observed_at == 0) "observed_at"
  refuse (str_eq m.unit "") "unit"

unfoldable pub validate_health : ConnectorHealth → Check
validate_health h = do
  valid_id "connector_id" h.connector_id
  valid_id "provider" h.provider
  refuse (not (connector_state_valid h.state)) "state"
  refuse (bad_class h.error_class) "error_class"
  safe_text "message" h.message 160
  refuse (ltb_ℤ h.consecutive_failures (pos 0)) "consecutive_failures"

abbrev pub outside_percent : Option ℤ → Bool
outside_percent none = false
outside_percent (some v) = ltb_ℤ v (pos 0) || ltb_ℤ (pos 100) v

abbrev pub is_negative : Option ℤ → Bool
is_negative none = false
is_negative (some v) = ltb_ℤ v (pos 0)

abbrev pub exceeds : Option ℤ → Option ℤ → Bool
exceeds (some a) (some b) = ltb_ℤ b a
exceeds _ _ = false

unfoldable pub validate_node : HomeLabNode → Check
validate_node n = do
  valid_id "id" n.id
  safe_text "name" n.name 64
  refuse (str_eq n.name "") "name"
  refuse (outside_percent n.cpu_percent) "cpu_percent"
  refuse (outside_percent n.memory_percent) "memory_percent"
  refuse (outside_percent n.disk_percent) "disk_percent"
  refuse (is_negative n.network_receive_bps) "network_receive_bps"
  refuse (is_negative n.network_transmit_bps) "network_transmit_bps"
  refuse (n.observed_at == 0) "observed_at"
  refuse (ltb_ℤ n.stale_after (pos 0)) "stale_after"
  refuse (not (metric_status_valid n.status)) "status"
  refuse (bad_class n.error_class) "error_class"
  safe_text "message" n.message 160

unfoldable pub validate_service : HomeLabService → Check
validate_service s = do
  valid_id "id" s.id
  safe_text "name" s.name 64
  refuse (str_eq s.name "") "name"
  valid_id "kind" s.kind
  safe_text "version" s.version 64
  safe_text "api_generation" s.api_generation 32
  refuse (is_negative s.firing_alerts) "firing_alerts"
  refuse (is_negative s.environments_total) "environments_total"
  refuse (is_negative s.environments_online) "environments_online"
  refuse (is_negative s.containers_running) "containers_running"
  refuse (is_negative s.containers_stopped) "containers_stopped"
  refuse (is_negative s.containers_failed) "containers_failed"
  refuse (is_negative s.stacks) "stacks"
  refuse (exceeds s.environments_online s.environments_total) "environments_online"
  refuse (s.observed_at == 0) "observed_at"
  refuse (ltb_ℤ s.stale_after (pos 0)) "stale_after"
  refuse (not (metric_status_valid s.status)) "status"
  refuse (bad_class s.error_class) "error_class"
  safe_text "message" s.message 160

-- The loops over metrics, nodes and services: each item is valid and has an id not seen before.
unfoldable pub validate_each {ℓ} :
    {A : Type ℓ} → (A → Check) → (A → String) → String → List String → List A → Check
validate_each check id field seen [] = ok tt
validate_each check id field seen (x ∷ xs) =
    let rest = validate_each check id field (id x ∷ seen) xs in
    do check x; refuse (text_mem (id x) seen) field; rest

unfoldable pub validate_healths : List ConnectorHealth → Check
validate_healths [] = ok tt
validate_healths (h ∷ hs) = let rest = validate_healths hs in validate_health h >> rest

abbrev pub schema_major : ℤ
schema_major = pos 1

abbrev pub is_major : Option ℤ → Bool
is_major none = false
is_major (some n) = eqb_ℤ n schema_major

unfoldable pub check_schema : String → Check
unfolding atoi cut
check_schema version = do
  refuse (str_eq version "") "schema_version"
  refuse (not (is_major (atoi (cut b'.' (codes version)).0))) "schema_version"

unfoldable pub validate_snapshot : MetricSnapshot → Check
unfolding validate_each validate_healths check_schema
validate_snapshot s = do
  check_schema s.schema_version
  valid_id "source_epoch" s.source_epoch
  valid_id "source_node" s.source_node
  safe_text "source_node_label" s.source_node_label 64
  refuse (s.generated_at == 0) "generated_at"
  validate_each validate_metric (λ m. m.id) "metrics" [] s.metrics
  validate_healths s.connector_health
  refuse (ltb max_homelab_nodes (length s.homelab_nodes)) "homelab_nodes"
  validate_each validate_node (λ n. n.id) "homelab_nodes" [] s.homelab_nodes
  refuse (ltb max_homelab_services (length s.homelab_services)) "homelab_services"
  validate_each validate_service (λ v. v.id) "homelab_services" [] s.homelab_services
