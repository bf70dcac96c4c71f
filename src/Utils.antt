-- ===== src/Utils.antt =====
-- common/utils/utils.go.
pub mod Target
pub mod Trace
pub mod Contexts
pub mod SyncMap
pub mod Arrays
pub mod Kebab
pub mod ErrorCode
pub mod Members
