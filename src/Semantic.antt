-- ===== src/Semantic.antt =====
-- src/semantic.rs: observations of the elements of a window or a document, the tags by which a caller
-- names them, and the references that are resolved against a later, still valid observation.
pub mod Observation
pub mod Mapping
pub mod Resolve
pub mod Forest
pub mod Unique
pub mod Roundtrip
