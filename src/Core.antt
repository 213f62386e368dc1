-- ===== src/Core.antt =====
-- crates/kernway-core: the request and response model that the other crates share.
pub mod Fields
pub mod Url
