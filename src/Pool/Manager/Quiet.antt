-- ===== src/Pool/Manager/Quiet.antt =====
-- How the manager of libpoolprotocols/PoolManager.cpp ends: stopping, and clearing the connections.
use prog_po_w_miner.Common.{
  ◌≡◌, refl, ◌∙◌, Bool, true, false, if◌then◌else◌, if_elim, Bool-cases, inl, inr,
}
use prog_po_w_miner.Common.Result.{ok, err}
use prog_po_w_miner.Mining.Farm
use prog_po_w_miner.Pool.Client.{PoolConnection, disconnect, give}
use prog_po_w_miner.Pool.Manager.{
  Manager, no_such_connection, active_connection, shut_down, stop, on_disconnected,
  clear_connections,
}
use prog_po_w_miner.Pool.Manager.Active.{Keeps, stop-Keeps}

-- Once the connections are cleared, the handler of the disconnection that this causes reads a
-- connection that is not there.
clear_connections-on_disconnected :
    (b b' : Bool) (m : Manager)
    → on_disconnected b (clear_connections b' m) ≡ err no_such_connection
unfolding on_disconnected clear_connections active_connection
clear_connections-on_disconnected b b' m = refl

shut_down-idle : (m : Manager) → (shut_down m).farm.is_mining ≡ false
unfolding shut_down Farm.stop
shut_down-idle m = elim (Bool-cases m.farm.is_mining) [ inl e ↦ rw e refl | inr e ↦ rw e refl ]

shut_down-running : (m : Manager) → (shut_down m).running ≡ m.running
unfolding shut_down
shut_down-running m = if_elim (λ (n : Manager). n.running ≡ m.running) m.farm.is_mining refl refl

shut_down_same : (m : Manager) → m.farm.is_mining ≡ false → shut_down m ≡ m
unfolding shut_down
shut_down_same m e = rw e refl

stop_lem :
    (b : Bool) (m : Manager)
    → m.running ≡ true
    → ((stop b m).farm.is_mining ≡ false) × ((stop b m).running ≡ false)
unfolding stop
stop_lem b m run =
    let n = record m {
      running = false;
      client = if b then give disconnect m.client else m.client;
    } in
    rw run (shut_down-idle n, shut_down-running n)

active_connection-Keeps : (m m' : Manager) → Keeps m m' → active_connection m' ≡ active_connection m
unfolding active_connection
active_connection-Keeps m m' (a, c) = rw (a, c, active_connection) refl

on_disconnected-stopped :
    (b : Bool) (c : PoolConnection) (m : Manager)
    → active_connection m ≡ ok c
    → m.farm.is_mining ≡ false
    → m.running ≡ false
    → on_disconnected b m ≡ ok m
unfolding on_disconnected
on_disconnected-stopped b c m there idle halted = rw (there, shut_down_same m idle, halted) refl

-- After `stop` of a running manager its miners do not work, and the disconnection that follows changes
-- nothing: the manager does not connect again.
stop-on_disconnected :
    (b b' : Bool) (c : PoolConnection) (m : Manager)
    → m.running ≡ true
    → active_connection m ≡ ok c
    → ((stop b m).farm.is_mining ≡ false) × (on_disconnected b' (stop b m) ≡ ok (stop b m))
stop-on_disconnected b b' c m run there =
    let (idle, halted) = stop_lem b m run in
    let (same_active, same_connections) = stop-Keeps b m in
    let still : active_connection (stop b m) ≡ ok c =
      active_connection-Keeps m (stop b m) (same_active, same_connections) ∙ there in
    (idle, on_disconnected-stopped b' c (stop b m) still idle halted)
