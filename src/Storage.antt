-- ===== src/Storage.antt =====
-- fangorn/src/storage: the shared document store, the intent store and the plaintext store.
pub mod Cid
pub mod IntentStore
pub mod DocStore
