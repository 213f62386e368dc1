-- ===== src/Http.antt =====
-- crates/kernway-http: the wire format of HTTP/1.1.
pub mod Parser
pub mod Writer
