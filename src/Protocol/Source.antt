-- ===== src/Protocol/Source.antt =====
-- The end of internal/protocol/validate.go: which snapshots a display accepts, and which of them
-- may replace the one that it holds.
use homepi_mon.Common.{
  String, not, Option, none, some, ltb, str_eq, if◌then◌else◌, Result, ok, err, ◌>>◌, refuse,
}
use homepi_mon.Protocol.Snapshot.{MetricSnapshot}

pub data SourceError : Type 0 where
  not_configured nil_snapshot wrong_source version_regressed : SourceError

-- `SourceBinding.Accept`, for the node that the device is bound to.
unfoldable pub accept_source : String → Option MetricSnapshot → Result SourceError (Unit {0})
accept_source node_id none = if str_eq node_id "" then err not_configured else err nil_snapshot
accept_source node_id (some s) = do
  refuse (str_eq node_id "") not_configured
  refuse (not (str_eq s.source_node node_id)) wrong_source

unfoldable pub supersedes :
    Option MetricSnapshot → Option MetricSnapshot → Result SourceError (Unit {0})
supersedes prev none = err nil_snapshot
supersedes none (some next) = ok tt
supersedes (some prev) (some next) =
    if not (str_eq prev.source_epoch next.source_epoch)
    then ok tt
    else if ltb prev.snapshot_version next.snapshot_version
    then ok tt
    else err version_regressed
