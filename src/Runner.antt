-- ===== src/Runner.antt =====
-- The runner of pinned servers (package runner).
pub mod Docker
pub mod Command
pub mod Override
