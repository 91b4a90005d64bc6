-- ===== src/KvRaft.antt =====
-- src/kvraft: the replicated key/value service.
pub mod Types
pub mod Server
pub mod Client
pub mod Snapshots
pub mod Retries
pub mod Once
pub mod Effects
pub mod Replicas
pub mod Replies
mod Tests
