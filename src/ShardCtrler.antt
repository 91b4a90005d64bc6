-- ===== src/ShardCtrler.antt =====
-- src/shardctrler: the shard controller.
pub mod Rebalance
pub mod Extremes
pub mod Balance
pub mod Spread
pub mod Configs
pub mod Collect
pub mod Owners
pub mod Written
pub mod Placement
pub mod History
pub mod Server
pub mod Client
mod Tests
