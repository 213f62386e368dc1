-- ===== src/Cache.antt =====
-- crates/kernway-cache-core and crates/kernway-cache-memory.
pub mod Memory
