-- ===== src/Runtime.antt =====
-- crates/rt-core: the timers of a shard.
pub mod Timers
