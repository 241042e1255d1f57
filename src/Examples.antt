-- ===== src/Examples.antt =====
-- Runs of the scripts' definitions on concrete inputs.
pub mod Ascii
pub mod Interop
pub mod Cluster
pub mod Release
pub mod Smoke
pub mod Diagnostics
pub mod Fixture
pub mod Sdk
pub mod Scenario
pub mod ClusterScenario
