-- ===== src/Validate.antt =====
-- The checks that src/lib.rs makes on a request before anything else happens.
pub mod Identifiers
pub mod Json
pub mod Parameters
pub mod Request
