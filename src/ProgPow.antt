-- ===== src/ProgPow.antt =====
-- libprogpow/ProgPow.{h,cpp}: the generator of the random inner loop.
pub mod Rng
pub mod Shuffle
pub mod Header
pub mod Emit
pub mod Kernel
mod Runs
