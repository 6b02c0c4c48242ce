-- ===== src/Features.antt =====
-- src/apexpulse/features: the feature vector of the model.
pub mod Extractor
pub mod Bounds
pub mod Dataset
mod Examples
