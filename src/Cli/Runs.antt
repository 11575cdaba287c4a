-- ===== src/Cli/Runs.antt =====
-- The command line of ethminer/MinerAux.h at concrete arguments, with a parser that finds the scheme
-- "stratum" everywhere.
use prog_po_w_miner.Common.{
  ◌≤◌, ℕ, ◌≡◌, refl, List, [], ◌∷◌, true, false, Option, none, some, arith,
}
use prog_po_w_miner.Common.Integers.{pos, negsuc}
use prog_po_w_miner.Common.Numerals.{stol, atoi}
use prog_po_w_miner.Common.Result.{err}
use prog_po_w_miner.Pool.Addresses.{Parts, s_schemes}
use prog_po_w_miner.Mining.Work.{Sealer}
use prog_po_w_miner.Pool.Client.{PoolConnection, no_connection}
use prog_po_w_miner.Pool.Manager.{mixed}
use prog_po_w_miner.Cli.{Build, MinerCli, new_cli, bad_argument}
use prog_po_w_miner.Cli.Endpoints.{set_pool}
use prog_po_w_miner.Cli.Options.{interpret_option}
use prog_po_w_miner.Cli.Options.Settings.{IsInterpreted, interpret_option-IsInterpreted}
use prog_po_w_miner.Cli.Options.Exits.{set_pool-exit}
use prog_po_w_miner.Cli.Main.{arguments}
use prog_po_w_miner.Cli.Main.Total.{IsEnd, arguments-IsEnd}
use prog_po_w_miner.Cli.Execution.{execute, set_cuda_instances}
use prog_po_w_miner.Cli.Execution.Instances.{Tells, execute-mixed_instances}
use prog_po_w_miner.Cli.Benchmark.{Summary, summary, sort, total, inner, back}
use prog_po_w_miner.Cli.Benchmark.Means.{summary-means}
use Prim.Native.String.{String}

stol-12 : stol " +12x" ≡ some (pos 12)
unfolding stol
stol-12 = refl

atoi-wrapped : atoi "-4294967297" ≡ negsuc 0
unfolding atoi
atoi-wrapped = refl

abbrev both : Build
both = record {
  api_core = true;
  ethash_cl = true;
  ethash_cuda = true;
  default_global_work_size_multiplier = 8192;
  default_local_work_size = 128;
  default_num_streams = 2;
  default_grid_size = 8192;
  default_block_size = 128;
}

abbrev found : Parts
found = record {
  scheme = some "stratum";
  host = some "exit";
  path = none;
  port = some "1";
  user_info = none;
}

abbrev parse : String → Option Parts
parse _ = some found

abbrev plain_text : String → String
plain_text s = s

abbrev line : List String
line = "ethminer" ∷ "-t" ∷ "3" ∷ "-X" ∷ []

interpret_option-IsInterpreted_example :
    IsInterpreted line both parse plain_text plain_text 1
      (new_cli both)
      (omega arith)
      "-t"
      (interpret_option line both parse plain_text plain_text 1 (new_cli both))
interpret_option-IsInterpreted_example =
    interpret_option-IsInterpreted line both parse plain_text plain_text 1 (new_cli both)
      (omega arith)

arguments-IsEnd_example : IsEnd (arguments line both parse plain_text plain_text)
arguments-IsEnd_example = arguments-IsEnd line both parse plain_text plain_text

new_schemes : (new_cli both).schemes ≡ s_schemes
unfolding new_cli
new_schemes = refl

set_pool-exit_example :
    set_pool parse plain_text plain_text "exit" (new_cli both) ≡ err bad_argument
set_pool-exit_example =
    set_pool-exit parse plain_text plain_text (new_cli both) found refl refl refl new_schemes

-- One OpenCL device is chosen, and two pools are given by deprecated parameters, each with a user.
abbrev endpoint : String → String → PoolConnection
endpoint h u = record no_connection { host = h; user = u }

abbrev chosen : MinerCli
chosen = record (new_cli both) {
  miner_type = mixed;
  should_list_devices = false;
  opencl_devices = 4 ∷ [];
  cuda_devices = [];
  legacy_parameters = true;
  endpoints =
      endpoint "one" "alice"
      ∷ endpoint "two" "bob"
      ∷ no_connection
      ∷ no_connection
      ∷ no_connection
      ∷ no_connection
      ∷ [];
}

execute-mixed_instances_example : Tells (set_cuda_instances 1) (execute both true true chosen).0
execute-mixed_instances_example =
    execute-mixed_instances both true chosen refl refl refl refl refl (omega arith)

abbrev no_devices : Sealer → Option ℕ
no_devices _ = none

abbrev rates : List ℕ
rates = 30 ∷ 10 ∷ 25 ∷ 20 ∷ []

summary-means_example :
    (s : Summary) × (m : ℕ) × (summary rates ≡ some s)
    × (s.inner_mean ≡ some m)
    × (s.least ≤ s.mean)
    × (s.mean ≤ s.greatest)
    × (s.least ≤ m)
    × (m ≤ s.greatest)
summary-means_example = summary-means rates (omega arith) (omega arith)

summary_test :
    summary rates ≡ some (record { least = 10; mean = 21; greatest = 30; inner_mean = some 22 })
unfolding summary sort total inner back
summary_test = refl
