-- ===== src/Raft.antt =====
-- src/raft: one Raft peer, its handlers as functions on its state, and what they keep.
pub mod Types
pub mod Index
pub mod Persist
pub mod Vote
pub mod Append
pub mod Leader
pub mod Apply
pub mod Shape
pub mod Replication
pub mod Durable
pub mod Votes
pub mod Election
mod Tests
