-- ===== src/Protocol/Enums.antt =====
-- internal/protocol/enums.go, and the enumerations of remote.go. A Go enumeration is a string type:
-- the last constructor of each type holds the strings that are none of its constants.
use homepi_mon.Common.{String, Bool, true, false, str_eq}

pub data MetricKind : Type 0 where
  quota balance cost tokens requests availability : MetricKind
  other_kind : String → MetricKind

pub data Window : Type 0 where
  rolling_5h daily weekly monthly billing_cycle prepaid instant : Window
  other_window : String → Window

pub data Precision : Type 0 where
  exact verified estimated manual unavailable : Precision
  other_precision : String → Precision

pub data SourceKind : Type 0 where
  official_api official_cli official_export manual_source compatibility_api mock : SourceKind
  other_source : String → SourceKind

pub data MetricStatus : Type 0 where
  ok_status warning critical unknown error stale : MetricStatus
  other_status : String → MetricStatus

-- `no_error` is the empty string, `ErrNone`.
pub data ErrorClass : Type 0 where
  no_error auth rate_limited timeout network schema_changed unsupported invalid_config : ErrorClass
  upstream : ErrorClass
  other_class : String → ErrorClass

pub data ConnectorState : Type 0 where
  conn_ok degraded blocked_auth conn_error disabled : ConnectorState
  other_state : String → ConnectorState

pub data DisplayStatus : Type 0 where
  display_ok display_warn display_crit display_delayed display_stale : DisplayStatus
  display_auth display_na display_error : DisplayStatus

pub data LinkStatus : Type 0 where
  link_live link_offline link_wait link_crit : LinkStatus

abbrev pub metric_kind_valid : MetricKind → Bool
metric_kind_valid (other_kind _) = false
metric_kind_valid _ = true

abbrev pub window_valid : Window → Bool
window_valid (other_window _) = false
window_valid _ = true

abbrev pub precision_valid : Precision → Bool
precision_valid (other_precision _) = false
precision_valid _ = true

-- The tiers whose severity is capped at a warning.
unfoldable pub precision_soft : Precision → Bool
precision_soft estimated = true
precision_soft manual = true
precision_soft _ = false

abbrev pub source_kind_valid : SourceKind → Bool
source_kind_valid (other_source _) = false
source_kind_valid _ = true

abbrev pub metric_status_valid : MetricStatus → Bool
metric_status_valid (other_status _) = false
metric_status_valid _ = true

abbrev pub error_class_valid : ErrorClass → Bool
error_class_valid (other_class _) = false
error_class_valid _ = true

-- `class == other`, a comparison of strings.
abbrev pub error_class_same : ErrorClass → ErrorClass → Bool
error_class_same no_error no_error = true
error_class_same auth auth = true
error_class_same rate_limited rate_limited = true
error_class_same timeout timeout = true
error_class_same network network = true
error_class_same schema_changed schema_changed = true
error_class_same unsupported unsupported = true
error_class_same invalid_config invalid_config = true
error_class_same upstream upstream = true
error_class_same (other_class s) (other_class t) = str_eq s t
error_class_same _ _ = false

abbrev pub connector_state_valid : ConnectorState → Bool
connector_state_valid (other_state _) = false
connector_state_valid _ = true

pub data CommandKind : Type 0 where
  show_page next_page previous_page set_rotation refresh_data show_message : CommandKind
  set_brightness : CommandKind
  other_command : String → CommandKind

pub data CommandPriority : Type 0 where
  normal high emergency : CommandPriority
  other_priority : String → CommandPriority

pub data CommandStatus : Type 0 where
  published accepted executed rejected expired failed : CommandStatus
  other_command_status : String → CommandStatus

abbrev pub final : CommandStatus → Bool
final executed = true
final rejected = true
final expired = true
final failed = true
final _ = false

abbrev pub is_accepted : CommandStatus → Bool
is_accepted accepted = true
is_accepted _ = false

abbrev pub is_published : CommandStatus → Bool
is_published published = true
is_published _ = false

unfoldable pub command_kind_valid : CommandKind → Bool
command_kind_valid (other_command _) = false
command_kind_valid _ = true

abbrev pub is_refresh : CommandKind → Bool
is_refresh refresh_data = true
is_refresh _ = false

abbrev pub is_message : CommandKind → Bool
is_message show_message = true
is_message _ = false

unfoldable pub priority_valid : CommandPriority → Bool
priority_valid (other_priority _) = false
priority_valid _ = true

abbrev pub priority_same : CommandPriority → CommandPriority → Bool
priority_same normal normal = true
priority_same high high = true
priority_same emergency emergency = true
priority_same (other_priority s) (other_priority t) = str_eq s t
priority_same _ _ = false

abbrev pub is_normal : CommandPriority → Bool
is_normal normal = true
is_normal _ = false
