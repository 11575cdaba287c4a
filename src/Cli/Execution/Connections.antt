-- ===== src/Cli/Execution/Connections.antt =====
-- The pools that `doMiner` of ethminer/MinerAux.h gives to the pool manager.
use prog_po_w_miner.Common.{List, [], ◌∷◌, if◌then◌else◌}
use prog_po_w_miner.Common.Text.{same_text}
use prog_po_w_miner.Pool.Client.{PoolConnection}
use prog_po_w_miner.Pool.Manager.{Manager}

-- The leading connections that have a host.
abbrev pub with_hosts : List PoolConnection → List PoolConnection
with_hosts [] = []
with_hosts (e ∷ es) = let rest = with_hosts es in if same_text e.host "" then [] else e ∷ rest
