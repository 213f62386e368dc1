-- ===== src/Dns.antt =====
-- crates/kernway-dns: the stub resolver's cache and the messages that it exchanges.
pub mod Cache
pub mod Message
pub mod Resolver
