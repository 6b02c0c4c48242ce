-- ===== src/Api.antt =====
-- src/apexpulse/api: what the service shows of a match, by HTTP and by WebSocket.
pub mod Wire
pub mod Snapshot
pub mod Matches
pub mod Predictions
pub mod Session
pub mod Broadcaster
mod Examples
