-- ===== src/Locker.antt =====
-- Lockfiles: internal/locker.
pub mod Canonical
pub mod Hash
pub mod Build
pub mod Manager
