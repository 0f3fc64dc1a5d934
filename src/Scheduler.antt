-- ===== src/Scheduler.antt =====
-- internal/scheduler: the retry policy of the connectors and the loop of one task.
pub mod Policy
pub mod Task
pub mod Backoff
mod Tests
