-- ===== src/Cli/Execution.antt =====
-- `MinerCLI::execute` and `doMiner` of ethminer/MinerAux.h: what the settings make of the devices, of the
-- client and of the pool manager.
pub mod Instances
pub mod Connections
use prog_po_w_miner.Common.{
  ℕ, zero, suc, ◌+◌, List, [], ◌∷◌, ◌++◌, Bool, true, false, not, ◌&&◌, ◌||◌, length, get_or, leb,
  ltb, ◌==◌, if◌then◌else◌,
}
use prog_po_w_miner.Common.Integers.{ℤ}
use prog_po_w_miner.Common.Text.{same_text}
use prog_po_w_miner.Pool.Client.{PoolConnection, no_connection}
use prog_po_w_miner.Pool.Manager.{
  MinerType, mixed, cl, cuda_only, Manager, add_connection, set_reconnect_tries,
}
use prog_po_w_miner.Cli.{
  OperationMode, no_mode, benchmark, simulation, farm, stratum, Build, MinerCli, max_endpoints,
  primary, secondary,
}
use prog_po_w_miner.Cli.Endpoints.{at_endpoint}
use Prim.Native.String.{String}

-- What the miners for OpenCL and CUDA are told, in order.
pub data Told : Type 0 where
  list_cl list_cuda : Told
  set_cl_devices : List ℕ → Told
  set_cl_kernel set_threads_per_hash set_cl_instances : ℕ → Told
  configure_cl :
      (local global platform dag_load_mode dag_create_device : ℕ) (exit_on_error : Bool) → Told
  set_cuda_devices : List ℕ → Told
  set_cuda_instances set_parallel_hash : ℕ → Told
  configure_cuda :
      (block grid streams schedule dag_load_mode dag_create_device : ℕ)
      (no_eval exit_on_error : Bool)
      → Told

-- How the call ends: the program exits, measures, mines or returns.
pub data Execution : Type 0 where
  exits : ℕ → Execution
  measures : (type : MinerType) (block warmup trial trials : ℕ) → Execution
  mines : MinerCli → Execution
  returns : Execution

unfoldable pub uses_cl : MinerType → Bool
uses_cl cuda_only = false
uses_cl _ = true

unfoldable pub uses_cuda : MinerType → Bool
uses_cuda cl = false
uses_cuda _ = true

-- The OpenCL miner is set up, as far as its devices can be configured: what it is told, the number of
-- mining threads, and whether the program goes on.
unfoldable pub set_up_cl : Build → (configured : Bool) → MinerCli → List Told × MinerCli × Bool
set_up_cl b configured c =
    if b.ethash_cl
    then (let chosen = ltb 0 (length c.opencl_devices) in
        let d = if chosen then record c { mining_threads = length c.opencl_devices } else c in
        (
          (if chosen then set_cl_devices c.opencl_devices ∷ [] else [])
              ++ (set_cl_kernel c.opencl_selected_kernel
                  ∷ set_threads_per_hash c.opencl_threads_per_hash
                  ∷ configure_cl c.local_work_size c.global_work_size_multiplier c.opencl_platform
                      c.dag_load_mode c.dag_create_device c.exit_on_error
                  ∷ (if configured then set_cl_instances d.mining_threads ∷ [] else [])),
          d,
          configured,
        ))
    else ([], c, false)

unfoldable pub set_up_cuda : Build → (configured : Bool) → MinerCli → List Told × MinerCli × Bool
set_up_cuda b configured c =
    if b.ethash_cuda
    then (let chosen = ltb 0 (length c.cuda_devices) in
        let d = if chosen then record c { mining_threads = length c.cuda_devices } else c in
        (
          (if chosen then set_cuda_devices c.cuda_devices ∷ [] else [])
              ++ (set_cuda_instances d.mining_threads
                  ∷ configure_cuda c.cuda_block_size c.cuda_grid_size c.num_streams c.cuda_schedule
                      c.dag_load_mode c.dag_create_device c.cuda_no_eval c.exit_on_error
                  ∷ (if configured then set_parallel_hash c.parallel_hash ∷ [] else [])),
          d,
          configured,
        ))
    else ([], c, false)

-- What the mode asks for
unfoldable pub run_mode : MinerCli → Execution
run_mode c = elim (c.mode) [
  | no_mode ↦ returns
  | benchmark ↦
      measures c.miner_type c.benchmark_block c.benchmark_warmup c.benchmark_trial
        c.benchmark_trials
  | simulation ↦ mines c
  | farm ↦ mines c
  | stratum ↦ mines c
]

-- `execute()`, with whether the devices can be configured
unfoldable pub execute :
    Build → (cl_configured cuda_configured : Bool) → MinerCli → List Told × Execution
execute b cl_configured cuda_configured c =
    if c.should_list_devices
    then (
      (if b.ethash_cl && uses_cl c.miner_type then list_cl ∷ [] else [])
          ++ (if b.ethash_cuda && uses_cuda c.miner_type then list_cuda ∷ [] else []),
      exits 0,
    )
    else let (told, c, on) =
        if uses_cl c.miner_type then set_up_cl b cl_configured c else ([], c, true) in
      if not on
      then (told, exits 1)
      else let (more, c, on) =
          if uses_cuda c.miner_type then set_up_cuda b cuda_configured c else ([], c, true) in
        (told ++ more, if not on then exits 1 else run_mode c)

-- The client that `doMiner()` makes, with what its constructor takes
pub data ClientKind : Type 0 where
  stratum_client : (work_timeout : ℤ) (email : String) (report_hashrate : Bool) → ClientKind
  getwork_client : (recheck_period : ℕ) → ClientKind
  simulate_client : (difficulty block : ℕ) → ClientKind
  no_client : ClientKind

unfoldable pub client_of : MinerCli → ClientKind
client_of c = elim (c.mode) [
  | stratum ↦ stratum_client c.worktimeout c.email c.report_stratum_hashrate
  | farm ↦ getwork_client c.farm_recheck_period
  | simulation ↦ simulate_client 20 c.benchmark_block
  | _ ↦ no_client
]

-- The credentials of the second endpoint under deprecated parameters
unfoldable pub failover_login : MinerCli → MinerCli
failover_login c =
    let first = get_or c.endpoints primary no_connection in
    if c.legacy_parameters && not (same_text (get_or c.endpoints secondary no_connection).user "")
    then at_endpoint secondary (λ e. record e { user = first.user; pass = first.pass }) c
    else c

-- The endpoints are given to the manager up to the first one without a host.
unfoldable pub add_endpoints : List PoolConnection → Manager → Manager
add_endpoints [] m = m
add_endpoints (e ∷ es) m =
    let rest = add_endpoints es (add_connection e m) in if same_text e.host "" then m else rest

-- `doMiner()` up to the start of the manager
unfoldable pub prepare_manager : MinerCli → Manager → Manager
prepare_manager c m =
    add_endpoints (failover_login c).endpoints (set_reconnect_tries c.max_farm_retries m)
