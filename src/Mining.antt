-- ===== src/Mining.antt =====
-- libethcore/EthashAux.{h,cpp}, libethcore/Miner.h and libethcore/Farm.h: the miners and what they work on.
pub mod Work
pub mod Epochs
pub mod BlockHeader
pub mod Farm
pub mod Devices
mod Runs
