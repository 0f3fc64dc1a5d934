-- ===== src/Protocol/Status.antt =====
-- internal/protocol/status.go: from a metric to the badge that the display prints, and from the sync
-- client's view to the badge in the header.
use homepi_mon.Common.{ℕ, ◌*◌, Option, none, some, Bool, true, false, ◌&&◌, ◌||◌, if◌then◌else◌}
use homepi_mon.Common.Int.{ℤ, pos, leb_ℤ, ltb_ℤ}
use homepi_mon.Common.Time.{minute, sub_time}
use homepi_mon.Decimal.{Decimal, cmp_le}
use homepi_mon.Protocol.Enums.{
  quota, balance, unavailable, MetricStatus, ok_status, warning, critical, unknown, error,
  ErrorClass, auth, rate_limited, timeout, network, schema_changed, unsupported, invalid_config,
  upstream, DisplayStatus, display_ok, display_warn, display_crit, display_delayed, display_stale,
  display_auth, display_na, display_error, LinkStatus, link_live, link_offline, link_wait,
  link_crit, metric_status_valid, precision_soft, Precision, MetricKind,
}
use homepi_mon.Protocol.Snapshot.{ProviderMetric, percent}

pub record Thresholds : Type 0 where
  pub warn_percent_left : ℤ
  pub crit_percent_left : ℤ
  pub warn_amount : Option Decimal
  pub crit_amount : Option Decimal

abbrev pub default_thresholds : Thresholds
default_thresholds = record {
  warn_percent_left = pos 20;
  crit_percent_left = pos 10;
  warn_amount = none;
  crit_amount = none;
}

-- `threshold > 0 && pct <= threshold`.
abbrev pub at_percent : ℤ → ℤ → Bool
at_percent threshold pct = ltb_ℤ (pos 0) threshold && leb_ℤ pct threshold

-- `threshold != nil && value.Cmp(threshold) <= 0`.
abbrev pub at_amount : Option Decimal → Decimal → Bool
at_amount none v = false
at_amount (some t) v = cmp_le v t

abbrev pub quota_severity : Thresholds → Option ℤ → MetricStatus
quota_severity t none = unknown
quota_severity t (some pct) =
    if at_percent t.crit_percent_left pct
    then critical
    else if at_percent t.warn_percent_left pct
    then warning
    else ok_status

abbrev pub balance_severity : Thresholds → Option Decimal → MetricStatus
balance_severity t none = unknown
balance_severity t (some v) =
    if at_amount t.crit_amount v
    then critical
    else if at_amount t.warn_amount v
    then warning
    else ok_status

abbrev pub severity_of : MetricKind → Thresholds → ProviderMetric → MetricStatus
severity_of quota t m = quota_severity t (percent m)
severity_of balance t m = balance_severity t m.value
severity_of _ t m = if metric_status_valid m.status then m.status else unknown

unfoldable pub severity : Thresholds → ProviderMetric → MetricStatus
severity t m = severity_of m.metric_kind t m

abbrev pub default_stale_after : ℤ
default_stale_after = pos (3 * minute)

unfoldable pub is_stale : ProviderMetric → ℕ → Bool
is_stale m now =
    let budget = if leb_ℤ m.stale_after (pos 0) then default_stale_after else m.stale_after in
    ltb_ℤ budget (sub_time now m.observed_at)

-- The first `switch` of `DeriveDisplayStatus`: the error classes that decide alone.
abbrev pub class_badge : ErrorClass → Option DisplayStatus
class_badge auth = some display_auth
class_badge unsupported = some display_na
class_badge schema_changed = some display_error
class_badge invalid_config = some display_error
class_badge upstream = some display_error
class_badge rate_limited = some display_delayed
class_badge _ = none

abbrev pub is_unavailable : Precision → Bool
is_unavailable unavailable = true
is_unavailable _ = false

abbrev pub is_error : MetricStatus → Bool
is_error error = true
is_error _ = false

abbrev pub is_link_error : ErrorClass → Bool
is_link_error timeout = true
is_link_error network = true
is_link_error _ = false

-- A soft precision lowers critical to warning.
abbrev pub soften : Bool → MetricStatus → MetricStatus
soften true critical = warning
soften _ s = s

abbrev pub value_badge : MetricStatus → DisplayStatus
value_badge critical = display_crit
value_badge warning = display_warn
value_badge unknown = display_na
value_badge _ = display_ok

unfoldable pub derive_display_status : ProviderMetric → Thresholds → ℕ → DisplayStatus
derive_display_status m t now = elim (class_badge m.error_class) [
  | some badge ↦ badge
  | none ↦
      if is_unavailable m.precision
      then display_na
      else if is_error m.status
      then display_error
      else if is_link_error m.error_class || is_stale m now
      then display_stale
      else value_badge (soften (precision_soft m.precision) (severity t m))
]

unfoldable pub alerting : DisplayStatus → Bool
alerting display_warn = true
alerting display_crit = true
alerting display_auth = true
alerting display_error = true
alerting _ = false

-- The header's badge: WAIT, then OFFLINE, then CRIT, then LIVE.
unfoldable pub derive_link_status : Bool → Bool → Bool → LinkStatus
derive_link_status false connected any_critical = link_wait
derive_link_status true false any_critical = link_offline
derive_link_status true true true = link_crit
derive_link_status true true false = link_live
