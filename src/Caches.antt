-- ===== src/Caches.antt =====
-- utils/cache.py: TTLCache, a cache local to a process.
pub mod Ttl
pub mod Refines
