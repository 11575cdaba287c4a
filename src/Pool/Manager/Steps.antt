-- ===== src/Pool/Manager/Steps.antt =====
-- The life of the manager of libpoolprotocols/PoolManager.cpp: its calls, its handlers and the steps of
-- its farm in any order.
use prog_po_w_miner.Common.{ℕ, ◌≡◌, Bool}
use prog_po_w_miner.Common.Result.{ok}
use prog_po_w_miner.Mining.Work.{WorkPackage, Solution}
use prog_po_w_miner.Mining.Farm
use prog_po_w_miner.Mining.Farm.Steps as FarmSteps
use prog_po_w_miner.Pool.Client.{PoolConnection}
use prog_po_w_miner.Pool.Manager.{
  Manager, on_connected, stop, on_disconnected, on_work_received, on_solution_accepted,
  on_solution_rejected, on_solution_found, on_miner_restart, work_loop_round, add_connection, start,
  set_reconnect_tries,
}

-- `clear_connections` is not among the steps, since nothing in the program calls it.
pub data Step : Manager → Manager → Type 0 where
  farm_moved :
      (g : Farm.Farm) {m : Manager} → FarmSteps.Step m.farm g → Step m (record m { farm = g })
  connected : {m m' : Manager} → on_connected m ≡ ok m' → Step m m'
  disconnected : (b : Bool) {m m' : Manager} → on_disconnected b m ≡ ok m' → Step m m'
  received :
      (now : ℕ) (wp : WorkPackage) {m m' : Manager} → on_work_received now wp m ≡ ok m' → Step m m'
  accepted : (stale : Bool) {m : Manager} → Step m (on_solution_accepted stale m)
  rejected : (stale : Bool) {m : Manager} → Step m (on_solution_rejected stale m)
  found :
      (now : ℕ) (sol : Solution) {m m' : Manager} → on_solution_found now sol m ≡ ok m' → Step m m'
  restarted : {m m' : Manager} → on_miner_restart m ≡ ok m' → Step m m'
  passed : {m : Manager} → Step m (work_loop_round m)
  added : (c : PoolConnection) {m : Manager} → Step m (add_connection c m)
  started : {m : Manager} → Step m (start m)
  stopped : (b : Bool) {m : Manager} → Step m (stop b m)
  tries_set : (n : ℕ) {m : Manager} → Step m (set_reconnect_tries n m)

pub data Steps : Manager → Manager → Type 0 where
  done : {m : Manager} → Steps m m
  next : {m m' m'' : Manager} → Steps m m' → Step m' m'' → Steps m m''
