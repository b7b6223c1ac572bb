-- ===== src/Http.antt =====
-- crates/imgx/src/http: the error envelope, entity tags and cache control.
pub mod Errors
pub mod Response
