-- ===== src/Server.antt =====
-- crates/kernway-server: what a request meets between the socket and its handler.
pub mod Router
pub mod Cors
