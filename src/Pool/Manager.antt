-- ===== src/Pool/Manager.antt =====
-- libpoolprotocols/PoolManager.{h,cpp}: the manager, which runs the farm on the work of a pool and
-- changes to another pool when one fails. The texts that it logs are left out; what they read of the
-- connections is not.
pub mod Failover
pub mod Tour
pub mod Steps
pub mod Active
pub mod Quiet
use prog_po_w_miner.Common.{
  ℕ, ◌+◌, ◌^◌, ◌%◌, List, [], ◌∷◌, ◌++◌, Bool, true, false, not, Option, none, some, length, get_or,
  get_elem?, drop, ltb, leb, ◌==◌, if◌then◌else◌,
}
use prog_po_w_miner.Common.Result.{Result, ok, err, ◌>>=◌}
use prog_po_w_miner.Common.Text.{same_text}
use prog_po_w_miner.DevCore.Endian.{to_compact_big_endian}
use prog_po_w_miner.DevCore.Hex.{to_hex, dont_add}
use prog_po_w_miner.Mining.Work.{WorkPackage, Solution, WorkingProgress, rate, opencl, cuda}
use prog_po_w_miner.Mining.Farm
use prog_po_w_miner.Mining.Farm.{Farm}
use prog_po_w_miner.Pool.Client.{
  PoolConnection, PoolClient, Command, connect, disconnect, submit_hashrate, submit_solution,
  set_connection, give,
}
use Prim.Native.String.{String}

pub data MinerType : Type 0 where
  mixed cl cuda_only : MinerType

pub record Manager : Type 0 where
  pub hashrate_reporting_time_passed : ℕ
  pub running : Bool
  pub reconnect_tries : ℕ
  pub reconnect_try : ℕ
  pub connections : List PoolConnection
  pub active : ℕ
  pub last_boundary : ℕ
  pub client : PoolClient
  pub farm : Farm
  pub miner_type : MinerType
  pub submit_time : ℕ

abbrev pub hashrate_reporting_time : ℕ
hashrate_reporting_time = 60

-- `PoolManager(client, farm, minerType)`
unfoldable pub new_manager : PoolClient → Farm → MinerType → Manager
new_manager c f t = record {
  hashrate_reporting_time_passed = 0;
  running = false;
  reconnect_tries = 3;
  reconnect_try = 0;
  connections = [];
  active = 0;
  last_boundary = 0;
  client = c;
  farm = f;
  miner_type = t;
  submit_time = 0;
}

-- A read of a connection that is not there (which is undefined), a division by 0, and a call of
-- `Farm::start` that does not return.
pub data ManagerError : Type 0 where
  no_such_connection division_by_zero farm_blocked : ManagerError

-- m_connections[m_activeConnectionIdx]
unfoldable pub active_connection : Manager → Result ManagerError PoolConnection
active_connection m = elim (get_elem? m.connections m.active) [
  | none ↦ err no_such_connection
  | some c ↦ ok c
]

unfoldable pub farm_started :
    Manager → Result Farm.StartError (Bool × Farm) → Result ManagerError Manager
farm_started m (ok (b, f)) = ok (record m { farm = f })
farm_started m (err e) = err farm_blocked

-- "Spinning up miners..."
unfoldable pub spin_up : Manager → Result ManagerError Manager
spin_up m = elim m.miner_type [
  | cl ↦ farm_started m (Farm.start opencl false m.farm)
  | cuda_only ↦ farm_started m (Farm.start cuda false m.farm)
  | mixed ↦ farm_started m (Farm.start cuda false m.farm) >>= λ m.
      farm_started m (Farm.start opencl true m.farm)
]

-- "Shutting down miners..."
unfoldable pub shut_down : Manager → Manager
shut_down m = if m.farm.is_mining then record m { farm = Farm.stop m.farm } else m

-- The handler of `onConnected`
unfoldable pub on_connected : Manager → Result ManagerError Manager
on_connected m = active_connection m >>= λ c. if not m.farm.is_mining then spin_up m else ok m

-- `stop()`, with what `isConnected()` of the client says
unfoldable pub stop : Bool → Manager → Manager
stop connected m =
    if m.running
    then shut_down (record m {
      running = false;
      client = if connected then give disconnect m.client else m.client;
    })
    else m

unfoldable pub call_connect : Manager → Manager
call_connect m = record m { client = give connect m.client }

-- The next connection, the first behind the last one.
unfoldable pub next_active : Manager → ℕ
next_active m =
    let next = (m.active + 1) % 2 ^ 32 in if leb (length m.connections) next then 0 else next

-- The manager turns to its connection `c`, unless that says to exit.
unfoldable pub turn_to : Bool → PoolConnection → Manager → Manager
turn_to connected c m =
    if same_text c.host "exit"
    then stop connected m
    else call_connect (record m {
      client = set_connection c m.client;
      farm = Farm.set_pool_addresses c.host c.port m.farm;
    })

unfoldable pub switch : Bool → Manager → Result ManagerError Manager
switch connected m =
    let m = record m { reconnect_try = 0; active = next_active m } in
    active_connection m >>= λ c. ok (turn_to connected c m)

-- `tryReconnect()`
unfoldable pub try_reconnect : Bool → Manager → Result ManagerError Manager
try_reconnect connected m =
    if leb (length m.connections) 0
    then ok m
    else if length m.connections == 1
    then ok (call_connect m)
    else if ltb m.reconnect_try m.reconnect_tries
    then ok (call_connect (record m { reconnect_try = (m.reconnect_try + 1) % 2 ^ 32 }))
    else switch connected m

-- The handler of `onDisconnected`
unfoldable pub on_disconnected : Bool → Manager → Result ManagerError Manager
on_disconnected connected m = active_connection m >>= λ c.
    let m = shut_down m in if m.running then try_reconnect connected m else ok m

-- A new boundary is shown as a difficulty, for which 2 ^ 256 is divided by it.
unfoldable pub note_boundary : WorkPackage → Manager → Result ManagerError Manager
note_boundary wp m =
    if wp.boundary == m.last_boundary
    then ok m
    else if wp.boundary == 0
    then err division_by_zero
    else ok (record m { last_boundary = wp.boundary })

-- The handler of `onWorkReceived`
unfoldable pub on_work_received : ℕ → WorkPackage → Manager → Result ManagerError Manager
on_work_received now wp m =
    note_boundary wp (record m { reconnect_try = 0; farm = Farm.set_work now wp m.farm }) >>= λ m.
    active_connection m >>= λ c. ok m

-- The handlers of `onSolutionAccepted` and `onSolutionRejected`
unfoldable pub on_solution_accepted : Bool → Manager → Manager
on_solution_accepted stale m = record m { farm = Farm.accepted_solution stale m.farm }

unfoldable pub on_solution_rejected : Bool → Manager → Manager
on_solution_rejected stale m = record m { farm = Farm.rejected_solution stale m.farm }

-- The handler of the farm's `onSolutionFound`
unfoldable pub on_solution_found : ℕ → Solution → Manager → Result ManagerError Manager
on_solution_found now sol m = active_connection m >>= λ c.
    ok (record m { submit_time = now; client = give (submit_solution sol) m.client })

-- The handler of the farm's `onMinerRestart`
unfoldable pub on_miner_restart : Manager → Result ManagerError Manager
on_miner_restart m = spin_up (shut_down m)

-- "0x" and the digits of a rate, without the zero that fills its first byte.
unfoldable pub rate_text : ℕ → List ℕ
rate_text r =
    let h = to_hex (to_compact_big_endian r 1) 2 dont_add in
    48 ∷ 120 ∷ (if get_or h 0 0 == 48 then drop 1 h else h)

-- One second of `workLoop()`
unfoldable pub work_loop_round : Manager → Manager
work_loop_round m =
    let passed = (m.hashrate_reporting_time_passed + 1) % 2 ^ 32 in
    if ltb hashrate_reporting_time passed
    then (let (progress, farm) = Farm.mining_progress m.farm in
        record m {
          hashrate_reporting_time_passed = 0;
          farm = farm;
          client = give (submit_hashrate (rate_text (rate progress))) m.client;
        })
    else record m { hashrate_reporting_time_passed = passed }

-- `addConnection(conn)`
unfoldable pub add_connection : PoolConnection → Manager → Manager
add_connection c m =
    if same_text c.host ""
    then m
    else let m = record m { connections = m.connections ++ (c ∷ []) } in
      if length m.connections == 1
      then record m {
        client = set_connection c m.client;
        farm = Farm.set_pool_addresses c.host c.port m.farm;
      }
      else m

-- `clearConnections()`
unfoldable pub clear_connections : Bool → Manager → Manager
clear_connections connected m = record m {
  connections = [];
  farm = Farm.set_pool_addresses "" 0 m.farm;
  client = if connected then give disconnect m.client else m.client;
}

-- `start()`
unfoldable pub start : Manager → Manager
start m = if ltb 0 (length m.connections) then call_connect (record m { running = true }) else m

-- `setReconnectTries(reconnectTries)`
unfoldable pub set_reconnect_tries : ℕ → Manager → Manager
set_reconnect_tries n m = record m { reconnect_tries = n }
