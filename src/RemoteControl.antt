-- ===== src/RemoteControl.antt =====
-- internal/remotecontrol: the display's side of remote control.
pub mod Store
pub mod Controller
pub mod Ledger
pub mod Execution
pub mod Guards
pub mod Admission
pub mod Bounds
pub mod Restart
pub mod Refresh
pub mod Distinct
mod Tests
mod LedgerTests
