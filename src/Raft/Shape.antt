-- ===== src/Raft/Shape.antt =====
-- The shape of a peer's log: it starts with a no-op, its entries carry consecutive indices, and
-- what has been applied reaches at least to its start.
mod Lists
pub use Lists.*
pub mod Follower
pub mod Snapshot
pub mod Leading
