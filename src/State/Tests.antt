-- ===== src/State/Tests.antt =====
-- Batches for the readings of internal/state/current.go.
use homepi_mon.Common.{some, none, true, ◌*◌, ◌∷◌, []}
use homepi_mon.Common.Int.{pos}
use homepi_mon.Common.Time.{second}
use homepi_mon.Common.Table.{lookup}
use homepi_mon.Protocol.Enums.{no_error, network, cost, instant, exact, official_api, ok_status}
use homepi_mon.Protocol.Snapshot.{ProviderMetric, HomeLabNode}
use homepi_mon.State.Current.{Current}
use homepi_mon.State.Metrics.{apply_metrics, apply_connector_error}
use homepi_mon.State.Order.{Advances, apply_metrics-Advances}
use homepi_mon.State.Faults.{Marks, apply_connector_error-Marks}

abbrev spend : ProviderMetric
spend = record {
  id = "api.cost";
  provider = "api";
  account_label = "";
  display_name = "Spend";
  metric_kind = cost;
  value = none;
  limit = none;
  unit = "USD";
  window = instant;
  resets_at = none;
  observed_at = 100 * second;
  precision = exact;
  source_kind = official_api;
  status = ok_status;
  stale_after = pos 0;
  error_class = no_error;
  derived = [];
  message = "";
  order = pos 0;
  group = "";
}

-- The readings after batch 5 of the connector, with one metric.
abbrev current : Current
current = record {
  node_id = "node";
  node_label = "node";
  epoch = "epoch";
  version = 1;
  metrics = ("api.cost", spend) ∷ [];
  observed_seq = ("api.cost", 5) ∷ [];
  metric_owners = ("api.cost", "api") ∷ [];
  health = [];
  nodes = [];
  services = [];
  node_owners = [];
  service_owners = [];
}

apply_metrics-Advances_example :
    Advances "api.cost" 4 current (apply_metrics current "api" 4 (spend ∷ [])).0
apply_metrics-Advances_example = apply_metrics-Advances current "api" 4 (spend ∷ []) "api.cost"

apply_connector_error-Marks_example :
    Marks network "refused"
      (lookup "api.cost" current.metrics)
      (lookup "api.cost" (apply_connector_error current "api" network "refused").0.metrics)
apply_connector_error-Marks_example =
    apply_connector_error-Marks current "api" network "refused" "api.cost"

abbrev nas : HomeLabNode
nas = record {
  id = "nas";
  name = "NAS";
  online = some true;
  cpu_percent = some (pos 12);
  memory_percent = none;
  disk_percent = none;
  network_receive_bps = none;
  network_transmit_bps = none;
  observed_at = 100 * second;
  stale_after = pos 0;
  status = ok_status;
  error_class = no_error;
  message = "";
  order = pos 0;
}

-- A report of the connector "portainer" when "prometheus" owns the node.
abbrev homelab : Current
homelab = record current {
  nodes = ("nas", nas) ∷ [];
  node_owners = ("nas", "prometheus") ∷ [];
  service_owners = ("proxy", "prometheus") ∷ [];
}
