-- ===== src/Consumer.antt =====
-- internal/consumer/consumer.go: from a message of the topic to the tuples of the backend.
pub mod Replication
pub mod Offsets
pub mod Commits
pub mod Locks
pub mod Messages
pub mod Updates
pub mod Replicated
pub mod Differences
pub mod RelationDefs
pub mod Retries
pub mod Replays
