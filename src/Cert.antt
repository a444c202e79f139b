-- ===== src/Cert.antt =====
-- internal/cert_manager without the ACME exchange: certificates and their checks (Cert/Check), the
-- names of what is stored for a domain (Cert/Description), and the state shared by the requests for
-- one certificate (Cert/State).
pub mod Check
pub mod Description
pub mod State
