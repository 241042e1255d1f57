-- ===== src/Interop.antt =====
-- scripts/interop.py
pub mod Exchange
pub mod Actor
pub mod Proxy
pub mod Server
pub mod Fixture
pub mod Scenario
