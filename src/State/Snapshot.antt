-- ===== src/State/Snapshot.antt =====
-- `Snapshot` of internal/state/current.go: the current state as a publishable snapshot, in a fixed
-- order. `sort.Slice` is an insertion sort here: any sort gives this order, since no two items have
-- the same keys.
use Prim.Native.String.{compare}
use homepi_mon.Common.{ℕ, String, Bool, not, List, [], ◌∷◌, map, if◌then◌else◌}
use text.Mathlib.Text.{is_lt}
use homepi_mon.Common.Int.{ℤ, ltb_ℤ, eqb_ℤ}
use homepi_mon.Common.Table.{Table}
use homepi_mon.Protocol.Snapshot.{
  MetricSnapshot, ProviderMetric, ConnectorHealth, HomeLabNode, HomeLabService,
}
use homepi_mon.State.Current.{Current}

abbrev pub str_lt : String → String → Bool
str_lt s t = is_lt (compare s t)

-- By the order, then by the id.
abbrev pub key_lt : ℤ → String → ℤ → String → Bool
key_lt i s j t = if not (eqb_ℤ i j) then ltb_ℤ i j else str_lt s t

module _ {ℓ} {A : Type ℓ} (less : A → A → Bool) where
  unfoldable pub insert_sorted : A → List A → List A
  insert_sorted x [] = x ∷ []
  insert_sorted x (y ∷ ys) = if less y x then y ∷ insert_sorted x ys else x ∷ y ∷ ys

  unfoldable pub sort : List A → List A
  unfolding insert_sorted
  sort [] = []
  sort (x ∷ xs) = insert_sorted x (sort xs)

abbrev pub values {ℓ} : {A : Type ℓ} → Table A → List A
values = map (λ e. e.1)

abbrev pub metric_lt : ProviderMetric → ProviderMetric → Bool
metric_lt a b = key_lt a.order a.id b.order b.id

abbrev pub health_lt : ConnectorHealth → ConnectorHealth → Bool
health_lt a b = str_lt a.connector_id b.connector_id

abbrev pub node_lt : HomeLabNode → HomeLabNode → Bool
node_lt a b = key_lt a.order a.id b.order b.id

abbrev pub service_lt : HomeLabService → HomeLabService → Bool
service_lt a b = key_lt a.order a.id b.order b.id

unfoldable pub snapshot : Current → ℕ → MetricSnapshot
unfolding sort
snapshot c now = record {
  schema_version = "1.1";
  source_epoch = c.epoch;
  snapshot_version = c.version;
  generated_at = now;
  source_node = c.node_id;
  source_node_label = c.node_label;
  metrics = sort metric_lt (values c.metrics);
  connector_health = sort health_lt (values c.health);
  homelab_nodes = sort node_lt (values c.nodes);
  homelab_services = sort service_lt (values c.services);
}
