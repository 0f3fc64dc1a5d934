-- ===== src/ConfigTx/Draft/Probe.antt =====
-- `TestProvider` of internal/configtx/draft.go. What a connector answers is an argument: the connector
-- of the staged provider, with the candidates over the secret store.
use homepi_mon.Common.{
  ℕ, ◌+◌, String, List, [], ◌∷◌, Option, none, some, length, Result, ok, err, ◌>>◌,
}
use homepi_mon.Common.Int.{ℤ}
use homepi_mon.Common.Table.{insert, delete}
use homepi_mon.Protocol.Enums.{ErrorClass, no_error, schema_changed}
use homepi_mon.Protocol.Snapshot.{HomeLabNode, HomeLabService, HomeLabReport}
use homepi_mon.Protocol.Validate.{validate_node, validate_service}
use homepi_mon.Config.{ProviderConfig}
use homepi_mon.ConfigTx.{Env, DraftError, provider_missing}
use homepi_mon.ConfigTx.Overlay.{Overlay}
use homepi_mon.ConfigTx.Draft.{Draft, find_provider}
use homepi_mon.ConfigTx.Draft.Fingerprint.{provider_fingerprint}

-- The error of a collection: its class, message and Retry-After.
pub record CollectError : Type 0 where
  pub class : ErrorClass
  pub message : String
  pub retry_after : ℕ

-- `HomeLabReporter`: the connector does not report, its report fails, or it reports.
pub data Reporting : Type 0 where
  no_report report_fails : Reporting
  reports : HomeLabReport → Reporting

pub record Collected : Type 0 where
  pub metrics : ℕ
  pub error : Option CollectError
  pub reporting : Reporting
  pub elapsed : ℤ

-- The connector cannot be built, refuses its configuration, or is asked to collect.
pub data Probe : Type 0 where
  not_built config_refused : Probe
  collected : Collected → Probe

-- With what the connector of a provider answers under the candidates of a draft.
abbrev pub Connectors : Type 0
Connectors = ProviderConfig → Overlay → Probe

pub record TestResult : Type 0 where
  pub provider_id : String
  pub provider_type : String
  pub metric_count : ℕ
  pub elapsed : ℤ
  pub class : ErrorClass
  pub message : String
  pub retry_after : ℕ

pub data TestError : Type 0 where
  store_closed build_failed invalid_config collect_failed invalid_report : TestError
  draft_error : DraftError → TestError

pub record Tested : Type 0 where
  pub draft : Draft
  pub result : Option TestResult  -- none is the zero value
  pub error : Option TestError

unfoldable pub valid_nodes : List HomeLabNode → Result String (Unit {0})
unfolding validate_node
valid_nodes [] = ok tt
valid_nodes (n ∷ ns) = do validate_node n; valid_nodes ns

unfoldable pub valid_services : List HomeLabService → Result String (Unit {0})
unfolding validate_service
valid_services [] = ok tt
valid_services (s ∷ ss) = do validate_service s; valid_services ss

abbrev outcome_of : ProviderConfig → Collected → TestResult
outcome_of spec c = record {
  provider_id = spec.id;
  provider_type = spec.kind;
  metric_count = c.metrics;
  elapsed = c.elapsed;
  class = no_error;
  message = "";
  retry_after = 0;
}

-- A failed test takes back what was known of the provider.
unfoldable pub test_failed : String → Draft → TestResult → TestError → Tested
unfolding delete
test_failed id d r e = record {
  draft = record d { tested = delete id d.tested };
  result = some r;
  error = some e;
}

abbrev invalid_summary : TestResult → TestResult
invalid_summary r = record r {
  class = schema_changed;
  message = "connector produced an invalid HomeLab summary";
}

abbrev passed_with : String → Draft → TestResult → Result DraftError String → Tested
unfolding insert
passed_with id d r (ok fingerprint) = record {
  draft = record d { tested = insert id fingerprint d.tested };
  result = some r;
  error = none;
}
passed_with id d r (err e) = record { draft = d; result = none; error = some (draft_error e) }

-- The fingerprint of what was tested is kept.
unfoldable pub test_passed : Env → String → Draft → TestResult → Tested
unfolding provider_fingerprint insert
test_passed env id d r = passed_with id d r (provider_fingerprint env id d)

abbrev summary_of : HomeLabReport → TestResult → TestResult
summary_of p r = record r { metric_count = r.metric_count + (length p.nodes + length p.services) }

abbrev check_summary : HomeLabReport → Result String (Unit {0})
unfolding valid_nodes valid_services
check_summary p = do valid_nodes p.nodes; valid_services p.services

abbrev reported :
    Env → String → Draft → TestResult → HomeLabReport → Result String (Unit {0}) → Tested
unfolding test_failed test_passed
reported env id d r p (ok u) = test_passed env id d (summary_of p r)
reported env id d r p (err e) = test_failed id d (invalid_summary r) invalid_report

abbrev after_report : Env → String → Draft → TestResult → Reporting → Tested
unfolding test_failed test_passed valid_nodes valid_services
after_report env id d r no_report = test_passed env id d r
after_report env id d r report_fails = test_failed id d (invalid_summary r) invalid_report
after_report env id d r (reports p) = reported env id d r p (check_summary p)

abbrev after_collect : Env → String → Draft → TestResult → Option CollectError → Reporting → Tested
unfolding test_failed test_passed valid_nodes valid_services
after_collect env id d r (some e) reporting =
    test_failed id d
      (record r { class = e.class; message = e.message; retry_after = e.retry_after })
      collect_failed
after_collect env id d r none reporting = after_report env id d r reporting

abbrev untested : Draft → TestError → Tested
untested d e = record { draft = d; result = none; error = some e }

abbrev after_probe : Env → String → Draft → ProviderConfig → Probe → Tested
unfolding test_failed test_passed valid_nodes valid_services
after_probe env id d spec not_built = untested d build_failed
after_probe env id d spec config_refused = untested d invalid_config
after_probe env id d spec (collected c) =
    after_collect env id d (outcome_of spec c) c.error c.reporting

abbrev test_found : Env → Option Connectors → String → Draft → Option ProviderConfig → Tested
unfolding test_failed test_passed valid_nodes valid_services
test_found env connectors id d none = untested d (draft_error provider_missing)
test_found env none id d (some spec) = untested d store_closed
test_found env (some answer) id d (some spec) = after_probe env id d spec (answer spec d.overlay)

-- `TestProvider`; without connectors the secret store cannot be opened.
unfoldable pub test_provider : Env → Option Connectors → String → Draft → Tested
unfolding find_provider test_failed test_passed valid_nodes valid_services
test_provider env connectors id d =
    test_found env connectors id d (find_provider id d.pending.providers)
