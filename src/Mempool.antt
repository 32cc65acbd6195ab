-- ===== src/Mempool.antt =====
-- The crate mempool: the payload maker, the core with its two queues, and its synchronizer.
pub mod Error
pub mod Config
pub mod Messages
pub mod Front
pub mod Payload
pub mod Synchronizer
pub mod State
pub mod Core
