-- ===== src/KvSrv.antt =====
-- src/kvsrv: the key/value service of one server.
pub mod Server
pub mod Client
pub mod Retries
mod Tests
