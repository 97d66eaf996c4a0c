-- ===== src/Protocol.antt =====
-- packages/protocol.
pub mod Regex
pub mod Errors
pub mod Scheduler
pub mod Types
pub mod Values
pub mod Constants
pub mod Client
pub mod Json
pub mod Methods
