-- ===== src/Dns.antt =====
-- internal/dns: the resolvers of addresses.
pub mod Resolver
pub mod Parallel
mod Tests
