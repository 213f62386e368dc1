-- ===== src/Security.antt =====
-- crates/kernway-security: what guards an application against its clients.
pub mod Bans
pub mod Lockout
pub mod Session
pub mod Token
