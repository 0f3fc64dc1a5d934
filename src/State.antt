-- ===== src/State.antt =====
-- internal/state/current.go: the node's current readings, one for each metric, node and service, with
-- the connector that produced it. A call runs under the mutex, so it is one step.
pub mod Current
pub mod Metrics
pub mod HomeLab
pub mod Snapshot
pub mod Order
pub mod Faults
pub mod Ownership
mod Tests
