-- ===== src/Orm.antt =====
-- The repositories: crates/kernway-orm-core and crates/kernway-orm-memory.
pub mod Ordered
pub mod Json
pub mod Spec
pub mod Page
pub mod Entity
pub mod Query
pub mod Repository
pub mod Memory
mod Tests
