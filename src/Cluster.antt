-- ===== src/Cluster.antt =====
-- scripts/interop_cluster.py
pub mod Verify
pub mod Slots
pub mod Channel
pub mod Login
pub mod Presence
pub mod Diagnostics
pub mod Scenario
