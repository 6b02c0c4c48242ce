-- ===== src/Stream.antt =====
-- src/apexpulse/stream: the windows over the event stream.
pub mod Window
pub mod Retention
pub mod Momentum
pub mod Consumer
pub mod Tracker
mod Examples
