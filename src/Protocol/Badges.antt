-- ===== src/Protocol/Badges.antt =====
-- Which badge `DeriveDisplayStatus` of internal/protocol/status.go gives, by an independent list of
-- what speaks against a value-based alert.
use homepi_mon.Common.{ℕ, ◌≡◌, ◌≢◌, ◌↔◌, Bool, true, false, none, some, arith}
use homepi_mon.Protocol.Enums.{
  ErrorClass, no_error, other_class, MetricStatus, critical, precision_soft, display_crit,
}
use homepi_mon.Protocol.Snapshot.{ProviderMetric}
use homepi_mon.Protocol.Status.{
  Thresholds, severity, is_stale, class_badge, is_unavailable, is_error, is_link_error, soften,
  value_badge, derive_display_status,
}

-- A class that the list of known classes has, or none.
abbrev pub known_error : ErrorClass → Bool
known_error no_error = false
known_error (other_class _) = false
known_error _ = true

-- A reading that may raise an alert by its value: no known error, a value, no error of the source, and
-- within its freshness budget.
pub record IsLive (m : ProviderMetric) (now : ℕ) : Type 0 where
  pub no_failure : known_error m.error_class ≡ false
  pub has_value : is_unavailable m.precision ≡ false
  pub no_error_status : is_error m.status ≡ false
  pub fresh : is_stale m now ≡ false

class_badge-none :
    (c : ErrorClass) → class_badge c ≡ none → is_link_error c ≡ false → known_error c ≡ false
class_badge-none c h l = ground arith

known-class_badge :
    (c : ErrorClass) → known_error c ≡ false → (class_badge c ≡ none) × (is_link_error c ≡ false)
known-class_badge c h = ground arith

class_badge-not_crit : (c : ErrorClass) → class_badge c ≢ some display_crit
class_badge-not_crit c h = ground arith

value_badge-crit :
    (soft : Bool) (s : MetricStatus)
    → value_badge (soften soft s) ≡ display_crit
    → (soft ≡ false) × (s ≡ critical)
value_badge-crit soft s h = ground arith

crit-IsLive :
    (m : ProviderMetric) (t : Thresholds) (now : ℕ)
    → derive_display_status m t now ≡ display_crit
    → IsLive m now × (precision_soft m.precision ≡ false) × (severity t m ≡ critical)
unfolding derive_display_status
crit-IsLive m t now h = ground (
  arith,
  class_badge-not_crit m.error_class,
  class_badge-none m.error_class,
  value_badge-crit (precision_soft m.precision) (severity t m),
)

IsLive-crit :
    (m : ProviderMetric) (t : Thresholds) (now : ℕ)
    → IsLive m now
    → precision_soft m.precision ≡ false
    → severity t m ≡ critical
    → derive_display_status m t now ≡ display_crit
unfolding derive_display_status
IsLive-crit m t now live hard alert =
    let (none_alone, no_link) = known-class_badge m.error_class live.no_failure in
    ground (arith, none_alone, no_link, live.has_value, live.no_error_status, live.fresh)

-- The badge CRIT means exactly that the reading is live, its precision is not soft, and its severity
-- under the thresholds is critical: neither an old, a failed nor an estimated reading raises it.
pub derive_display_status-crit :
    (m : ProviderMetric) (t : Thresholds) (now : ℕ)
    → (derive_display_status m t now ≡ display_crit)
      ↔ (IsLive m now × (precision_soft m.precision ≡ false) × (severity t m ≡ critical))
derive_display_status-crit m t now = (crit-IsLive m t now, λ h. IsLive-crit m t now h.0 h.1 h.2)
