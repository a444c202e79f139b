-- ===== src/Proxy.antt =====
-- internal/proxy: the reverse proxy.
pub mod Director
pub mod Config
pub mod Server
mod Tests
