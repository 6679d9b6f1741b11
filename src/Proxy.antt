-- ===== src/Proxy.antt =====
-- The enforcement proxy: internal/proxy.
pub mod Limits
pub mod Template
pub mod Enforce
pub mod Filter
pub mod Session
pub mod Preflight
