-- ===== src/Listener.antt =====
-- internal/tlslistener: the listener that handles TLS and registers its connections.
pub mod Registry
pub mod Queue
pub mod Version
