-- ===== src/RemoteControl/Restart.antt =====
-- What a start of the display does with its ledger: `openResultStore` of internal/remotecontrol/store.go.
use homepi_mon.RemoteControl.Store.{Store}
