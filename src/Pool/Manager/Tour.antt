-- ===== src/Pool/Manager/Tour.antt =====
-- The manager of libpoolprotocols/PoolManager.cpp tries every pool: the way through its connections.
use prog_po_w_miner.Common.{ℕ, ◌<◌, ◌≡◌, List, false, length, All}
use prog_po_w_miner.Common.Text.{same_text}
use prog_po_w_miner.Pool.Client.{PoolConnection}
use prog_po_w_miner.Pool.Manager.{Manager}

-- No connection stands for the end of the program.
unfoldable pub Stays : List PoolConnection → Type 0
Stays cs = All (λ (c : PoolConnection). same_text c.host "exit" ≡ false) cs

-- The manager has just turned to a pool, with the connections `cs` and `t` tries of each.
pub record Fresh (cs : List PoolConnection) (t : ℕ) (m : Manager) : Type 0 where
  pub connections : m.connections ≡ cs
  pub tries : m.reconnect_tries ≡ t
  pub none_yet : m.reconnect_try ≡ 0
  pub inside : m.active < length cs
