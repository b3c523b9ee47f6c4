-- ===== src/Cache.antt =====
-- src/cache.rs: the parts of the read-through cache that decide without the network.
pub mod Canonical
pub mod Recent
pub mod Pool
pub mod OcspProxy
pub mod Refetch
pub mod ReadThrough
