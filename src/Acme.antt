-- ===== src/Acme.antt =====
-- internal/acme_client_manager: the accounts at the certificate authority.
pub mod State
pub mod Accounts
pub mod Manager
mod Tests
