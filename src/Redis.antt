-- ===== src/Redis.antt =====
-- crates/kernway-redis: the client of a Redis server.
pub mod Resp
