-- ===== src/Cli.antt =====
-- ethminer/MinerAux.h and main.cpp: the command line of the miner. `MinerCli` is the class `MinerCLI`, with
-- the table of the schemes, and an option changes it.
pub mod Endpoints
pub mod Options
pub mod Main
pub mod Execution
pub mod Benchmark
mod Runs
use prog_po_w_miner.Common.{
  ℕ, ◌+◌, ◌-◌, ◌^◌, List, [], ◌∷◌, Bool, true, false, ◌||◌, Option, none, some, get_elem?,
  replicate,
}
use prog_po_w_miner.Common.Integers.{ℤ, pos, negsuc}
use prog_po_w_miner.Common.Result.{Result, ok, err, ◌>>=◌}
use prog_po_w_miner.Common.Numerals.{stol}
use prog_po_w_miner.Common.Text.{same_text}
use prog_po_w_miner.Pool.Client.{PoolConnection, no_connection}
use prog_po_w_miner.Pool.Manager.{MinerType, mixed}
use prog_po_w_miner.Pool.Addresses.{Schemes, s_schemes}
use Prim.Native.String.{String}

pub data OperationMode : Type 0 where
  no_mode benchmark simulation farm stratum : OperationMode

-- What the build was configured with, and the defaults of the miners for OpenCL and CUDA.
pub record Build : Type 0 where
  pub api_core : Bool
  pub ethash_cl : Bool
  pub ethash_cuda : Bool
  pub default_global_work_size_multiplier : ℕ
  pub default_local_work_size : ℕ
  pub default_num_streams : ℕ
  pub default_grid_size : ℕ
  pub default_block_size : ℕ

-- A vector of chosen devices stands up to its count.
pub record MinerCli : Type 0 where
  pub mode : OperationMode
  pub miner_type : MinerType
  pub opencl_platform : ℕ
  pub mining_threads : ℕ
  pub should_list_devices : Bool
  pub opencl_selected_kernel : ℕ
  pub opencl_devices : List ℕ
  pub opencl_threads_per_hash : ℕ
  pub global_work_size_multiplier : ℕ
  pub local_work_size : ℕ
  pub cuda_devices : List ℕ
  pub num_streams : ℕ
  pub cuda_schedule : ℕ
  pub cuda_grid_size : ℕ
  pub cuda_block_size : ℕ
  pub cuda_no_eval : Bool
  pub parallel_hash : ℕ
  pub dag_load_mode : ℕ
  pub dag_create_device : ℕ
  pub exit_on_error : Bool
  pub benchmark_warmup : ℕ
  pub benchmark_trial : ℕ
  pub benchmark_trials : ℕ
  pub benchmark_block : ℕ
  pub endpoints : List PoolConnection
  pub ep_ix : ℕ
  pub max_farm_retries : ℕ
  pub farm_recheck_period : ℕ
  pub display_interval : ℕ
  pub farm_recheck_set : Bool
  pub worktimeout : ℤ
  pub show_hwmonitors : Bool
  pub show_power : Bool
  pub api_port : ℤ
  pub report_stratum_hashrate : Bool
  pub email : String
  pub legacy_parameters : Bool
  pub new_parameters : Bool
  pub schemes : Schemes

abbrev pub max_endpoints : ℕ
max_endpoints = 6

abbrev pub primary : ℕ
primary = 0

abbrev pub secondary : ℕ
secondary = 1

-- `MAX_MINERS`
abbrev pub max_miners : ℕ
max_miners = 2 ^ 5

-- `MinerCLI()`
unfoldable pub new_cli : Build → MinerCli
new_cli b = record {
  mode = no_mode;
  miner_type = mixed;
  opencl_platform = 0;
  mining_threads = 2 ^ 32 - 1;
  should_list_devices = false;
  opencl_selected_kernel = 0;
  opencl_devices = [];
  opencl_threads_per_hash = 8;
  global_work_size_multiplier = b.default_global_work_size_multiplier;
  local_work_size = b.default_local_work_size;
  cuda_devices = [];
  num_streams = b.default_num_streams;
  cuda_schedule = 4;
  cuda_grid_size = b.default_grid_size;
  cuda_block_size = b.default_block_size;
  cuda_no_eval = true;
  parallel_hash = 4;
  dag_load_mode = 0;
  dag_create_device = 0;
  exit_on_error = false;
  benchmark_warmup = 15;
  benchmark_trial = 3;
  benchmark_trials = 5;
  benchmark_block = 0;
  endpoints = replicate max_endpoints no_connection;
  ep_ix = 0;
  max_farm_retries = 3;
  farm_recheck_period = 500;
  display_interval = 5;
  farm_recheck_set = false;
  worktimeout = pos 180;
  show_hwmonitors = false;
  show_power = false;
  api_port = pos 0;
  report_stratum_hashrate = false;
  email = "";
  legacy_parameters = false;
  new_parameters = false;
  schemes = s_schemes;
}

-- What an option throws: `BadArgument`, what `stol` throws where nothing catches it, or what a text makes
-- of the null pointer behind the arguments.
pub data CliError : Type 0 where
  bad_argument bad_number null_argument : CliError

-- The index of the last argument that was read, and what the option made of the settings
abbrev pub Outcome : Type 0
Outcome = Result CliError (ℕ × MinerCli)

unfoldable pub is_one_of : String → List String → Bool
is_one_of arg [] = false
is_one_of arg (name ∷ names) = same_text arg name || is_one_of arg names

module _ (argv : List String) where
  -- `argv[i]`
  unfoldable pub argument : ℕ → Result CliError String
  argument i = elim (get_elem? argv i) [ none ↦ err null_argument | some s ↦ ok s ]

  -- The next argument, to be worked on with the index that it has
  unfoldable pub with_next : (i : ℕ) → (String → Result CliError MinerCli) → Outcome
  with_next i f = argument (i + 1) >>= λ s. f s >>= λ c. ok (i + 1, c)

  -- The next argument as a number, `BadArgument` if `stol` throws
  unfoldable pub with_number : (i : ℕ) → (ℤ → MinerCli) → Outcome
  with_number i f = with_next i (λ s. elim (stol s) [ none ↦ err bad_argument | some n ↦ ok (f n) ])
