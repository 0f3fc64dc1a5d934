-- ===== src/Protocol/Snapshot.antt =====
-- internal/protocol/snapshot.go and homelab.go: the data of a snapshot. Values are immutable here,
-- so that the deep copies of `Clone` are the values themselves. A pointer field is an `Option`, an
-- int or a duration a signed integer, an instant a number (Common/Time.antt).
use homepi_mon.Common.{ℕ, String, List, Option, none, some, Bool}
use homepi_mon.Common.Int.{ℤ}
use homepi_mon.Decimal.{Decimal, percent_of}
use homepi_mon.Protocol.Enums.{
  MetricKind, Window, Precision, SourceKind, MetricStatus, ErrorClass, ConnectorState,
}

pub record ProviderMetric : Type 0 where
  pub id : String
  pub provider : String
  pub account_label : String
  pub display_name : String
  pub metric_kind : MetricKind
  pub value : Option Decimal
  pub limit : Option Decimal
  pub unit : String
  pub window : Window
  pub resets_at : Option ℕ
  pub observed_at : ℕ
  pub precision : Precision
  pub source_kind : SourceKind
  pub status : MetricStatus
  pub stale_after : ℤ
  pub error_class : ErrorClass
  pub derived : List String
  pub message : String
  pub order : ℤ
  pub group : String

pub record ConnectorHealth : Type 0 where
  pub connector_id : String
  pub provider : String
  pub enabled : Bool
  pub state : ConnectorState
  pub last_attempt_at : Option ℕ
  pub last_success_at : Option ℕ
  pub next_attempt_at : Option ℕ
  pub consecutive_failures : ℤ
  pub error_class : ErrorClass
  pub message : String

pub record HomeLabNode : Type 0 where
  pub id : String
  pub name : String
  pub online : Option Bool
  pub cpu_percent : Option ℤ
  pub memory_percent : Option ℤ
  pub disk_percent : Option ℤ
  pub network_receive_bps : Option ℤ
  pub network_transmit_bps : Option ℤ
  pub observed_at : ℕ
  pub stale_after : ℤ
  pub status : MetricStatus
  pub error_class : ErrorClass
  pub message : String
  pub order : ℤ

pub record HomeLabService : Type 0 where
  pub id : String
  pub name : String
  pub kind : String
  pub version : String
  pub api_generation : String
  pub healthy : Option Bool
  pub firing_alerts : Option ℤ
  pub environments_total : Option ℤ
  pub environments_online : Option ℤ
  pub containers_running : Option ℤ
  pub containers_stopped : Option ℤ
  pub containers_failed : Option ℤ
  pub stacks : Option ℤ
  pub observed_at : ℕ
  pub stale_after : ℤ
  pub status : MetricStatus
  pub error_class : ErrorClass
  pub message : String
  pub order : ℤ

pub record HomeLabReport : Type 0 where
  pub nodes : List HomeLabNode
  pub services : List HomeLabService

pub record MetricSnapshot : Type 0 where
  pub schema_version : String
  pub source_epoch : String
  pub snapshot_version : ℕ  -- uint64
  pub generated_at : ℕ
  pub source_node : String
  pub source_node_label : String
  pub metrics : List ProviderMetric
  pub connector_health : List ConnectorHealth
  pub homelab_nodes : List HomeLabNode
  pub homelab_services : List HomeLabService

-- `ProviderMetric.Percent`: undefined without an upstream limit.
unfoldable pub percent : ProviderMetric → Option ℤ
percent m = elim m.value [
  | none ↦ none
  | some v ↦ elim m.limit [ none ↦ none | some l ↦ percent_of v l ]
]
