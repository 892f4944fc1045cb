-- ===== src/Browser.antt =====
-- src/cdp.rs: an executor for one page of a Chromium browser, over the DevTools protocol.
pub mod Page
pub mod Session
pub mod Accessibility
pub mod Boundary
pub mod Query
pub mod Effect
pub mod Geometry
pub mod Scroll
pub mod Tree
pub mod Snapshot
pub mod Observe
pub mod Executor
pub mod Honest
