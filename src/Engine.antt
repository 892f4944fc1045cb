-- ===== src/Engine.antt =====
-- `Engine` of src/lib.rs: one request from validation to its terminal acknowledgement, and batches.
pub mod Conclude
pub mod Dispatch
pub mod Gate
pub mod Execute
pub mod Frame
pub mod Once
pub mod Calls
