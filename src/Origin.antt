-- ===== src/Origin.antt =====
-- crates/imgx/src/origin: where source images are fetched from, and the guards on the fetches.
pub mod Addresses
pub mod Fetcher
pub mod Remote
pub mod R2
