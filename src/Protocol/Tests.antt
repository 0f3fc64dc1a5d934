-- ===== src/Protocol/Tests.antt =====
-- A balance below its threshold, seen by internal/protocol/status.go.
use homepi_mon.Common.{◌≡◌, ◌↔◌, ◌*◌, refl, false, none, some, []}
use homepi_mon.Common.Int.{pos}
use homepi_mon.Common.Time.{second, sub_time}
use homepi_mon.Decimal.{cmp_le}
use homepi_mon.Protocol.Enums.{
  balance, prepaid, exact, official_api, ok_status, critical, no_error, precision_soft,
  display_crit,
}
use homepi_mon.Protocol.Snapshot.{ProviderMetric}
use homepi_mon.Protocol.Status.{Thresholds, is_stale, severity, derive_display_status}
use homepi_mon.Protocol.Badges.{IsLive, derive_display_status-crit}

abbrev credit : ProviderMetric
credit = record {
  id = "api.balance";
  provider = "api";
  account_label = "";
  display_name = "Credit";
  metric_kind = balance;
  value = some (record { unscaled = pos 120; scale = 2 });
  limit = none;
  unit = "USD";
  window = prepaid;
  resets_at = none;
  observed_at = 100 * second;
  precision = exact;
  source_kind = official_api;
  status = ok_status;
  stale_after = pos 0;
  error_class = no_error;
  derived = [];
  message = "";
  order = pos 0;
  group = "";
}

abbrev thresholds : Thresholds
thresholds = record {
  warn_percent_left = pos 20;
  crit_percent_left = pos 10;
  warn_amount = none;
  crit_amount = some (record { unscaled = pos 2; scale = 0 });
}

derive_display_status-crit_example :
    (derive_display_status credit thresholds (110 * second) ≡ display_crit) ↔ (
      IsLive credit (110 * second)
      × (precision_soft credit.precision ≡ false)
      × (severity thresholds credit ≡ critical))
derive_display_status-crit_example = derive_display_status-crit credit thresholds (110 * second)

alerts : derive_display_status credit thresholds (110 * second) ≡ display_crit
unfolding derive_display_status is_stale sub_time precision_soft severity cmp_le
alerts = refl
