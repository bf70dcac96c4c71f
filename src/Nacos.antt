-- ===== src/Nacos.antt =====
-- component/nacos/base/nacos-client.go: the configuration client.
pub mod Param
pub mod Setup
pub mod Ready
pub mod Client
pub mod Reads
pub mod Publishes
pub mod Watches
pub mod Notices
pub mod Admin
