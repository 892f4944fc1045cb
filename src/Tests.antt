-- ===== src/Tests.antt =====
-- A scripted environment, and runs of the definitions on concrete inputs.
pub mod Codec
pub mod Script
pub mod Runs
pub mod Page
pub mod Browsing
pub mod Trees
pub mod Targets
pub mod Hosts
pub mod Inputs
pub mod Arguments
