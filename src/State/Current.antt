-- ===== src/State/Current.antt =====
-- The data of internal/state/current.go, its construction and its small operations.
use homepi_mon.Common.{
  ℕ, ◌+◌, ◌%◌, ◌^◌, String, Bool, ◌||◌, [], str_eq, length, ltb, if◌then◌else◌, Result, ok, err,
}
use homepi_mon.Common.Table.{Table, insert}
use homepi_mon.Protocol.Snapshot.{ProviderMetric, ConnectorHealth, HomeLabNode, HomeLabService}
use homepi_mon.Protocol.Validate.{validate_health}

pub record Current : Type 0 where
  pub node_id : String
  pub node_label : String
  pub epoch : String
  pub version : ℕ  -- uint64
  pub metrics : Table ProviderMetric
  pub observed_seq : Table ℕ
  pub metric_owners : Table String
  pub health : Table ConnectorHealth
  pub nodes : Table HomeLabNode
  pub services : Table HomeLabService
  pub node_owners : Table String
  pub service_owners : Table String

pub data StateError : Type 0 where
  no_node_id no_epoch no_connector bad_error_class too_many_entities : StateError
  invalid : String → StateError
  owned_elsewhere : String → StateError

abbrev pub bump : ℕ → ℕ
bump v = (v + 1) % 2 ^ 64

unfoldable pub new_current : String → String → String → Result StateError Current
new_current node_id label epoch =
    if str_eq node_id ""
    then err no_node_id
    else if str_eq epoch ""
    then err no_epoch
    else ok (record {
      node_id = node_id;
      node_label = if str_eq label "" then node_id else label;
      epoch = epoch;
      version = 0;
      metrics = [];
      observed_seq = [];
      metric_owners = [];
      health = [];
      nodes = [];
      services = [];
      node_owners = [];
      service_owners = [];
    })

unfoldable pub apply_health : Current → ConnectorHealth → Current × Result StateError (Unit {0})
apply_health c h = elim (validate_health h) [
  | err field ↦ (c, err (invalid field))
  | ok _ ↦ (record c { health = insert h.connector_id h c.health; version = bump c.version }, ok tt)
]

unfoldable pub has_data : Current → Bool
has_data c = ltb 0 (length c.metrics) || ltb 0 (length c.nodes) || ltb 0 (length c.services)
