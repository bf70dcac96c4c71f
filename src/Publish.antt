-- ===== src/Publish.antt =====
-- The publish/subscribe servers under publish/.
pub mod Topics
pub mod Single
