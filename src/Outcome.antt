-- ===== src/Outcome.antt =====
-- The pure parts of a run's outcome in src/lib.rs: `verify`, `protocol_failure`, `dispatch_message`,
-- the receipts and acknowledgements, `persistence_unknown_ack`, and the capability checks
-- `strict_action_capability` and `background_capability_is_authorized`.
pub mod Capability
pub mod Verdict
pub mod Acks
