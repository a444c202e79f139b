-- ===== src/Checker.antt =====
-- internal/domain_checker: for which domains a certificate may be issued.
pub mod IpList
pub mod Chains
pub mod Config
pub mod Sources
mod Tests
