-- ===== src/Programs.antt =====
-- src/bin: the two programs.
pub mod Client
