-- ===== src/Pool/Stratum.antt =====
-- libpoolprotocols/stratum/EthStratumClient.{h,cpp}: the client of a stratum pool. Its sockets, timers and
-- handlers are the outside: what it asks of them is the list of its actions, and what they bring are
-- the arguments of its functions.
pub mod State
pub mod Session
pub mod Replies
pub mod Steps
pub mod Ends
pub mod Answers
pub mod Extranonce
mod Runs
