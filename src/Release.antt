-- ===== src/Release.antt =====
-- scripts/release.py
pub mod Version
pub mod Package
pub mod Registry
pub mod Publish
