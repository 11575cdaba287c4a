-- ===== src/Pool/Runs.antt =====
-- libpoolprotocols/PoolManager.cpp at concrete inputs: two pools, and one try of each after the first.
use prog_po_w_miner.Common.{ℕ, [], ◌∷◌, true, Option, none, some}
use prog_po_w_miner.Mining.Work.{Sealer, opencl, cuda}
use prog_po_w_miner.Mining.Farm.{new_farm}
use prog_po_w_miner.Pool.Client.{PoolConnection, no_connection, new_client}
use prog_po_w_miner.Pool.Manager.{Manager, cl, new_manager}

abbrev devices : Sealer → Option ℕ
devices opencl = some 1
devices cuda = none

abbrev first_pool : PoolConnection
first_pool = record no_connection { host = "a.pool"; port = 4444 }

abbrev second_pool : PoolConnection
second_pool = record no_connection { host = "b.pool"; port = 80 }

abbrev idle : Manager
unfolding new_manager new_farm
idle = new_manager new_client (new_farm 7 devices) cl

abbrev two : Manager
unfolding new_manager new_farm
two = record idle {
  connections = first_pool ∷ second_pool ∷ [];
  reconnect_tries = 2;
  running = true;
}
