-- ===== src/Lib.antt =====
-- Praefectus executes signed desktop actions at most once. This library models its core, src/lib.rs:
-- a request is validated, its authority verified, its operation claimed in a ledger file under a lock,
-- the desktop observed and the target resolved, the action dispatched, the effect judged, and a
-- terminal acknowledgement recorded.
--
-- Prelude: Boolean tests, lists, texts and machine integers. Json: serde_json's Value, and its
--   equality test (Equality).
-- Protocol: the request types (Request), the reports and errors (Report), and the delivery routes
--   (Route). Two fields that the source calls `none` and `open` are `unverified` and `open_target`.
-- Journal: the JSON-lines files as bytes: repair_jsonl_tail and the reading loop.
-- Host: the environment (Records.Env), the state and the exceptions of methods (Monad), the calls on
--   the files (Files), and two logics over actions: Frame, for what neither claims nor dispatches, and
--   Yields, for what holds of the ledger file when an action returns.
-- Validate: validate_request, validate_action, validate_verification and the identifiers.
-- Outcome: verify, strict_action_capability and the acknowledgements.
-- Ledger: OperationLedger; Ledger/Claims: when an operation is claimed.
-- Native: the typing, the key presses and the scrolls of NativeExecutor (dispatch_type_text, and the
--   arms Press and Scroll of dispatch).
-- Ledgers: MemoryOutcomeLedger and NullOutcomeLedger. Authority: Ed25519AuthorityVerifier.
-- Semantic: src/semantic.rs: observations of elements (Observation), the map of their parents
--   (Mapping), and the references that resolve to them (Resolve).
-- Browser: src/cdp.rs: the browser as a parameter (Page), the executor's state and exceptions
--   (Session), accessibility properties and trees (Accessibility, Tree), observation (Snapshot,
--   Observe), boundaries, queries, the three actions (Boundary, Query, Effect, Geometry, Scroll) and
--   dispatch (Executor); Honest: what a dispatch may say of its effect.
-- Engine: execute in the order of its text (Execute, Gate, Dispatch, Conclude), batches and status;
--   Once: the invariant of the dispatches; Calls: sequences of calls.
-- CommandLine: parse_arguments of src/main.rs.
-- Tests: an environment in which all calls succeed, a page with one button, and runs in them.
--
-- The executor, the authority, the outcome ledger, the clock, the cancellation token, the file system,
-- the JSON codec, UTF-8 and SHA-256 are fields of Env. Each call of it may answer anything and fail,
-- and a failed write may leave any prefix of its line. The state records the dispatched operation IDs,
-- which the code does not keep. Calls run one after another, since the code holds a file lock.
--
-- The browser answers every command with any JSON value or an error of the channel, before or after it
-- has sent. The session records the functions with an effect that were sent, which the code does not
-- keep. Hashes, the arithmetic of f64, the texts of numbers and the check of signatures are parameters.
--
-- Bounds: validate_verification walks at most 4097 rounds, one more than the 4096 nodes that it
-- accepts, so that running out of rounds is the error of that limit. The wait for the lock takes as
-- many polls as the environment says that the lock is held. build_mapping's walk has one round more
-- than there are elements, and each round meets a new one. The search for a parent in parse_ax_tree has
-- no bound in the code; the model gives it any number of steps, and answers `none` when they run out.
-- The wait for a stability sample takes as many rounds as the browser's parameter says.
--
-- Not modelled: the desktop backends of Linux, Windows and macOS with their processes, the observation
-- store and the other actions of the native executor and the commands of src/main.rs, which call the
-- platform; of the browser backend, the live probe, the sockets, the discovery of targets and the
-- process tables.
pub mod Prelude
pub mod Json
pub mod Protocol
pub mod Journal
pub mod Host
pub mod Validate
pub mod Outcome
pub mod Ledger
pub mod Ledgers
pub mod Authority
pub mod Semantic
pub mod Browser
pub mod Native
pub mod CommandLine
pub mod Engine
pub mod Tests
