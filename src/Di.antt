-- ===== src/Di.antt =====
-- crates/di-core: the dependency injection container.
pub mod Beans
pub mod Refresh
pub mod Scope
