-- ===== src/Manager.antt =====
-- internal/cert_manager/manager.go: the certificate manager.
pub mod Storage
pub mod Hello
pub mod Serve
pub mod Key
pub mod Challenge
pub mod Order
pub mod Issue
