-- ===== src/Pool.antt =====
-- libpoolprotocols: how the program talks to a pool.
pub mod Client
pub mod Addresses
pub mod Manager
pub mod Stratum
pub mod Getwork
pub mod Simulation
mod Runs
