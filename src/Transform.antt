-- ===== src/Transform.antt =====
-- crates/imgx/src/transform: the options of a request, the choice of the output format, the pipeline,
-- and hashes.
pub mod Options
pub mod Floats
pub mod Negotiate
pub mod Numbers
pub mod Params
pub mod Print
pub mod Pipeline
pub mod Vips
pub mod Thumbhash
