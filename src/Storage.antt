-- ===== src/Storage.antt =====
-- src/apexpulse/storage: the key layout, the in-process store, and the live match state on top.
pub mod Keys
pub mod Memory
pub mod History
pub mod Manager
pub mod KeyLaws
pub mod Expiry
pub mod Rounds
pub mod Isolation
pub mod Sink
pub mod Sqlite
pub mod Sample
mod Examples
