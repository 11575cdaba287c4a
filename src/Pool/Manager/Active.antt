-- ===== src/Pool/Manager/Active.antt =====
-- Which connection of the manager of libpoolprotocols/PoolManager.cpp is active.
use prog_po_w_miner.Common.{◌<◌, ◌≡◌, ◌⊎◌, refl, Bool, false, length, if◌then◌else◌, if_elim}
use prog_po_w_miner.Common.Result.{Result, ok, err}
use prog_po_w_miner.Mining.Farm
use prog_po_w_miner.Pool.Manager.Steps.{Steps}
use prog_po_w_miner.Pool.Client.{disconnect, give}
use prog_po_w_miner.Pool.Manager.{Manager, ManagerError, shut_down, stop}

-- The active connection is one of the connections, or there are none.
unfoldable pub Points : Manager → Type 0
Points m = (m.active ≡ 0) ⊎ (m.active < length m.connections)

-- A manager keeps its connections and which of them is active.
abbrev pub Keeps : Manager → Manager → Type 0
Keeps m m' = (m'.active ≡ m.active) × (m'.connections ≡ m.connections)

-- A result is `P`, or an exception.
abbrev Gives : (Manager → Type 0) → Result ManagerError Manager → Type 0
Gives P (ok m) = P m
Gives P (err e) = Unit {0}

shut_down-Keeps : (m : Manager) → Keeps m (shut_down m)
unfolding shut_down
shut_down-Keeps m = if_elim (Keeps m) m.farm.is_mining (refl, refl) (refl, refl)

pub stop-Keeps : (b : Bool) (m : Manager) → Keeps m (stop b m)
unfolding stop
stop-Keeps b m =
    if_elim (Keeps m) m.running
      (shut_down-Keeps
        (record m { running = false; client = if b then give disconnect m.client else m.client }))
      (refl, refl)
