-- ===== src/External.antt =====
-- Code outside the repository that the program calls, as interfaces.
pub mod Retry
