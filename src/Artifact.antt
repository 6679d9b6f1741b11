-- ===== src/Artifact.antt =====
-- Artifacts of servers (package artifact).
pub mod Reference
pub mod Image
pub mod Package
