-- ===== src/Rlp.antt =====
-- libdevcore/RLP.{h,cpp}: the recursive length prefix format.
pub mod Format
pub mod Stream
pub mod Reader
pub mod Lists
pub mod Values
mod Runs
