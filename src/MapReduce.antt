-- ===== src/MapReduce.antt =====
-- src/mr: the MapReduce coordinator and its workers.
pub mod Coordinator
pub mod Assignment
pub mod Handlers
pub mod Loops
pub mod Valid
pub mod Run
pub mod Reachable
pub mod Worker
mod Tests
