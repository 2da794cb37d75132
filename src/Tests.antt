-- ===== src/Tests.antt =====
-- The properties at concrete inputs.
pub mod Data
pub mod Resources
pub mod Replication
pub mod Backend
pub mod Offsets
pub mod Schemas
pub mod Messages
pub mod Access
pub mod Stores
pub mod Reports
pub mod Checks
pub mod Services
pub mod PubSub
pub mod Outbox
