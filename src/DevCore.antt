-- ===== src/DevCore.antt =====
-- libdevcore: conversions of integers and bytes.
pub mod Endian
pub mod Hex
pub mod Worker
mod Runs
