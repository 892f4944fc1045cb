-- ===== src/Protocol.antt =====
-- The wire types of the protocol, from src/lib.rs, and what is computed from an action alone.
-- `u16`, `u32` and `u64` are natural numbers, `i64` is ℤ.
mod Request
mod Report
pub mod Route
pub use Request.*
pub use Report.*
