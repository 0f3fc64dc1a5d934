-- ===== src/RemoteControl/LedgerTests.antt =====
-- Restarts and snapshots on a concrete ledger of internal/remotecontrol/store.go.
use homepi_mon.Common.{◌*◌, true, [], ◌∷◌, arith}
use homepi_mon.Common.Time.{second}
use homepi_mon.Protocol.Enums.{refresh_data, executed}
use homepi_mon.RemoteControl.Store.{
  Store, StoreState, FileSystem, interrupt_all, LedgerRecord, accepted_record, completed_record,
}
use homepi_mon.RemoteControl.Controller.{Controller}
use homepi_mon.RemoteControl.Bounds.{Grows, handles, after_event, after_event-Grows}
use homepi_mon.RemoteControl.Tests.{env, full_disk, display, turn}
use homepi_mon.Protocol.Snapshot.{MetricSnapshot}

-- A refresh that is pending, a page that was being shown when the display stopped, and a command that
-- was executed.
abbrev refreshing : LedgerRecord
refreshing = record (accepted_record env.now turn "epoch" 7) {
  command_id = "refresh";
  kind = refresh_data;
  pending_refresh = true;
}

abbrev running : LedgerRecord
running = record (accepted_record env.now turn "epoch" 7) { command_id = "running" }

abbrev finished : LedgerRecord
finished = completed_record env.now executed "" (accepted_record env.now turn "epoch" 7)

abbrev stored : StoreState
stored = record { high_sequence = 5; records = refreshing ∷ running ∷ finished ∷ [] }

abbrev good_files : FileSystem
good_files = record {
  makes_dir = true;
  protects_dir = true;
  protects_file = true;
  renames = true;
  persists = true;
}

abbrev restarted : Store
restarted = record {
  state = record { high_sequence = 5; records = (interrupt_all (1010 * second) stored.records).0 };
  disk = record { high_sequence = 5; records = (interrupt_all (1010 * second) stored.records).0 };
}

after_event-Grows_example : Grows display.store (after_event display (handles full_disk turn)).store
after_event-Grows_example = after_event-Grows display (handles full_disk turn) (omega arith)

-- The display with that ledger, and a newer snapshot.
abbrev busy : Controller
busy = record display { store = record { state = stored; disk = stored } }

abbrev newer : MetricSnapshot
newer = record {
  schema_version = "1.1";
  source_epoch = "epoch";
  snapshot_version = 8;
  generated_at = 1001 * second;
  source_node = "node";
  source_node_label = "node";
  metrics = [];
  connector_health = [];
  homelab_nodes = [];
  homelab_services = [];
}
