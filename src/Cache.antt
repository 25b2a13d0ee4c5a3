-- ===== src/Cache.antt =====
-- cache/: the interface types of cache/store and the in-process cache of cache/memory.
pub mod Store
pub mod Memory
pub mod RateLimit
