-- ===== src/ShardKv.antt =====
-- src/shardkv: the sharded key/value service.
pub mod Types
pub mod Keys
pub mod Apply
pub mod Server
pub mod Movement
pub mod Client
mod Tests
