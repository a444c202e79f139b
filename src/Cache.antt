-- ===== src/Cache.antt =====
-- internal/cache: the interface of the byte caches (Cache/Bytes), its implementations in memory
-- (Cache/Memory) and on disk (Cache/Disk), and the LRU value cache (Cache/Lru).
pub mod Bytes
pub mod Memory
pub mod Disk
pub mod Lru
