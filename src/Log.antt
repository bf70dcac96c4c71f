-- ===== src/Log.antt =====
-- The logger of common/log/logger.go, and what it hides: common/utils/desensitization.
pub mod Mask
pub mod Value
pub mod Copy
pub mod Hide
pub mod Hidden
pub mod Secret
pub mod Masked
pub mod Logger
pub mod Logged
