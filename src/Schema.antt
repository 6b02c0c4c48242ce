-- ===== src/Schema.antt =====
-- src/apexpulse/schemas/{models,events}.py: the wire models and the checks that pydantic runs when
-- one is built.
pub mod Check
pub mod Models
pub mod Sample
pub mod Events
pub mod Accepted
