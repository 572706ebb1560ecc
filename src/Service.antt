-- ===== src/Service.antt =====
-- fangorn/src/node/service.rs: the full node service.
pub mod Request
pub mod Documents
pub mod Hints
pub mod SystemKeys
pub mod Understood
pub mod Sync
pub mod Join
pub mod Bootstrap
pub mod Config
pub mod Examples
