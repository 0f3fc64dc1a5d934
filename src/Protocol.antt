-- ===== src/Protocol.antt =====
-- internal/protocol: the wire model that the node and the display share.
pub mod Enums
pub mod Ids
pub mod Snapshot
pub mod Source
pub mod Validate
pub mod Status
pub mod Badges
pub mod Params
pub mod Command
mod Tests
