-- ===== src/Inference.antt =====
-- The scoring of match states: src/apexpulse/inference and the calibrator that it applies.
pub mod Calibrator
pub mod Engine
pub mod Favour
pub mod Sample
pub mod Worker
