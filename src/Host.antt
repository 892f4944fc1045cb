-- ===== src/Host.antt =====
-- What surrounds the engine of src/lib.rs, and how the model threads it. The executor, the authority
-- verifier and the outcome ledger are traits that a host implements; the clock, the cancellation flag
-- (which another thread may set at any time), the file system, SHA-256, UTF-8 and the JSON codec are
-- the standard library's and other crates'. All of them are operations of an `Env`, over a state of
-- their own (`World`); no operation is assumed to be deterministic, honest or successful.
mod Records
mod Monad
pub mod Files
pub mod Frame
pub mod Yields
pub use Records.*
unfoldable pub use Monad.*
