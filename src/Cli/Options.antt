-- ===== src/Cli/Options.antt =====
-- `MinerCLI::interpretOption` of ethminer/MinerAux.h: all options, in the groups that the code has them in.
pub mod Safety
pub mod Walk
pub mod Devices
pub mod Pools
pub mod Settings
pub mod Exits
use prog_po_w_miner.Common.{
  ℕ, zero, suc, ◌+◌, List, [], ◌∷◌, ◌++◌, Bool, true, false, not, ◌&&◌, ◌||◌, Option, none, some,
  length, get_or, ltb, leb, ◌==◌, if◌then◌else◌,
}
use prog_po_w_miner.Common.Integers.{ℤ}
use prog_po_w_miner.Common.Result.{Result, ok, err, ◌>>=◌}
use prog_po_w_miner.Common.Text.{same_text}
use prog_po_w_miner.Common.Numerals.{stol, atoi, to_unsigned, to_int32}
use prog_po_w_miner.Pool.Manager.{mixed, cl, cuda_only}
use prog_po_w_miner.Pool.Addresses.{Parts}
use prog_po_w_miner.Cli.{
  OperationMode, benchmark, simulation, Build, MinerCli, CliError, bad_argument, bad_number,
  Outcome, primary, secondary, max_miners, is_one_of, argument, with_next, with_number,
}
use prog_po_w_miner.Cli.Endpoints.{
  deprecated, at_endpoint, set_userpass, is_dashed, set_farm, set_failover, set_stratum, set_pool,
  set_ssl, set_hwmon,
}
use Prim.Native.String.{String}

unfoldable pub unsigned : ℤ → ℕ
unsigned = to_unsigned 32

-- What follows a group of options, if none of the group was given
infixr 20 ◌or_else◌
unfoldable pub ◌or_else◌ : Option Outcome → Option Outcome → Option Outcome
none or_else other = other
some r or_else _ = some r

-- One of the branches: an option by its names, with what it does
unfoldable pub on : Bool → Outcome → Option Outcome
on test r = if test then some r else none

module _ (argv : List String) where
  -- The numbers that follow, up to the first argument that is none, while there is room
  unfoldable pub read_devices : (fuel i : ℕ) → List ℕ → ℕ × List ℕ
  read_devices zero i ds = (i, ds)
  read_devices (suc fuel) i ds =
      if ltb (length ds) max_miners && ltb (i + 1) (length argv)
      then elim (stol (get_or argv (i + 1) "")) [
        | none ↦ (i, ds)
        | some n ↦ read_devices fuel (i + 1) (ds ++ (unsigned n ∷ []))
      ]
      else (i, ds)

  -- A mode that may be followed by the number of a block. In lower case a number is the same.
  unfoldable pub with_block : (more : Bool) → ℕ → MinerCli → Outcome
  with_block more i c =
      if more
      then (argument argv (i + 1) >>= λ s. elim (stol s) [
        | some n ↦ ok (i + 1, record c { benchmark_block = unsigned n })
        | none ↦ if is_dashed s then ok (i, c) else err bad_argument
      ])
      else ok (i, c)

  unfoldable pub opencl_options : String → (more : Bool) → ℕ → MinerCli → Option Outcome
  opencl_options arg more i c =
      on (same_text arg "--opencl-platform" && more)
        (with_number argv i (λ n. record c { opencl_platform = unsigned n }))
      or_else on (is_one_of arg ("--opencl-devices" ∷ "--opencl-device" ∷ [])) (
          let (j, ds) = read_devices (length argv) i c.opencl_devices in
          ok (j, record c { opencl_devices = ds }))
      or_else on (same_text arg "--cl-parallel-hash" && more) (
          with_next argv i (λ s. elim (stol s) [
            | none ↦ err bad_argument
            | some n ↦
                let t = unsigned n in
                if t == 1 || t == 2 || t == 4 || t == 8
                then ok (record c { opencl_threads_per_hash = t })
                else err bad_argument
          ]))
      or_else on (same_text arg "--cl-kernel" && more)
          (with_number argv i (λ n. record c { opencl_selected_kernel = unsigned n }))
      or_else on (same_text arg "--cl-global-work" && more)
          (with_number argv i (λ n. record c { global_work_size_multiplier = unsigned n }))
      or_else on (same_text arg "--cl-local-work" && more)
          (with_number argv i (λ n. record c { local_work_size = unsigned n }))

  -- The schedules of the CUDA driver by their names
  unfoldable pub schedule_of : String → Option ℕ
  schedule_of mode =
      if same_text mode "auto"
      then some 0
      else if same_text mode "spin"
      then some 1
      else if same_text mode "yield"
      then some 2
      else if same_text mode "sync"
      then some 4
      else none

  unfoldable pub cuda_options : String → (more : Bool) → ℕ → MinerCli → Option Outcome
  cuda_options arg more i c =
      on (same_text arg "--cuda-grid-size" && more)
        (with_number argv i (λ n. record c { cuda_grid_size = unsigned n }))
      or_else on (same_text arg "--cuda-block-size" && more)
          (with_number argv i (λ n. record c { cuda_block_size = unsigned n }))
      or_else on (same_text arg "--cuda-devices") (
          let (j, ds) = read_devices (length argv) i c.cuda_devices in
          ok (j, record c { cuda_devices = ds }))
      or_else on (same_text arg "--cuda-parallel-hash" && more) (
          with_next argv i (λ s. elim (stol s) [
            | none ↦ err bad_argument
            | some n ↦
                let t = unsigned n in
                if t == 0 || ltb 8 t then err bad_argument else ok (record c { parallel_hash = t })
          ]))
      or_else on (same_text arg "--cuda-schedule" && more) (
          with_next argv i (λ s. elim (schedule_of s) [
            | none ↦ err bad_argument
            | some n ↦ ok (record c { cuda_schedule = n })
          ]))
      or_else on (same_text arg "--cuda-streams" && more) (
          with_next argv i (λ s. elim (stol s) [
            | none ↦ err bad_number
            | some n ↦ ok (record c { num_streams = unsigned n })
          ]))
      or_else on (same_text arg "--cuda-noeval") (ok (i, record c { cuda_no_eval = true }))

  -- `-L`: behind "single" stands the device that creates the DAG.
  unfoldable pub set_dag_load_mode : ℕ → MinerCli → Outcome
  set_dag_load_mode i c = argument argv (i + 1) >>= λ mode.
      if same_text mode "parallel"
      then ok (i + 1, record c { dag_load_mode = 0 })
      else if same_text mode "sequential"
      then ok (i + 1, record c { dag_load_mode = 1 })
      else if same_text mode "single"
      then (argument argv (i + 2) >>= λ s. elim (stol s) [
        | none ↦ err bad_number
        | some n ↦ ok (i + 2, record c { dag_load_mode = 2; dag_create_device = unsigned n })
      ])
      else err bad_argument

  unfoldable pub mining_options : String → (more : Bool) → ℕ → MinerCli → Option Outcome
  mining_options arg more i c =
      on (is_one_of arg ("-L" ∷ "--dag-load-mode" ∷ []) && more) (set_dag_load_mode i c)
      or_else on (same_text arg "--benchmark-warmup" && more)
          (with_number argv i (λ n. record c { benchmark_warmup = unsigned n }))
      or_else on (same_text arg "--benchmark-trial" && more)
          (with_number argv i (λ n. record c { benchmark_trial = unsigned n }))
      or_else on (same_text arg "--benchmark-trials" && more)
          (with_number argv i (λ n. record c { benchmark_trials = unsigned n }))
      or_else on (is_one_of arg ("-G" ∷ "--opencl" ∷ [])) (ok (i, record c { miner_type = cl }))
      or_else on (is_one_of arg ("-U" ∷ "--cuda" ∷ []))
          (ok (i, record c { miner_type = cuda_only }))
      or_else on (is_one_of arg ("-X" ∷ "--cuda-opencl" ∷ []))
          (ok (i, record c { miner_type = mixed }))
      or_else on (is_one_of arg ("-M" ∷ "--benchmark" ∷ []))
          (with_block more i (record c { mode = benchmark }))
      or_else on (is_one_of arg ("-Z" ∷ "--simulation" ∷ []))
          (with_block more i (record c { mode = simulation }))
      or_else on (is_one_of arg ("-t" ∷ "--mining-threads" ∷ []) && more)
          (with_number argv i (λ n. record c { mining_threads = unsigned n }))

  -- A change by the text that is the next argument
  unfoldable pub with_text : ℕ → (String → MinerCli) → Outcome
  with_text i f = with_next argv i (λ s. ok (f s))

  unfoldable pub login_options : String → (more : Bool) → ℕ → MinerCli → Option Outcome
  login_options arg more i c =
      let d = deprecated c in
      on (is_one_of arg ("-O" ∷ "--userpass" ∷ []) && more)
        (with_text i (λ s. set_userpass primary s d))
      or_else on (is_one_of arg ("-SC" ∷ "--stratum-client" ∷ []) && more) (ok (i, c))
      or_else on (is_one_of arg ("-SP" ∷ "--stratum-protocol" ∷ []) && more) (
          with_text i (λ s.
            let v = unsigned (atoi s) in
            at_endpoint secondary (λ e. record e { version = v })
              (at_endpoint primary (λ e. record e { version = v }) d)))

  unfoldable pub credential_options : String → (more : Bool) → ℕ → MinerCli → Option Outcome
  credential_options arg more i c =
      let d = deprecated c in
      on (is_one_of arg ("-SE" ∷ "--stratum-email" ∷ []) && more)
        (with_text i (λ s. record c { email = s }))
      or_else on (is_one_of arg ("-FO" ∷ "--failover-userpass" ∷ []) && more)
          (with_text i (λ s. set_userpass secondary s d))
      or_else on (is_one_of arg ("-u" ∷ "--user" ∷ []) && more)
          (with_text i (λ s. at_endpoint primary (λ e. record e { user = s }) d))
      or_else on (is_one_of arg ("-p" ∷ "--pass" ∷ []) && more)
          (with_text i (λ s. at_endpoint primary (λ e. record e { pass = s }) d))
      or_else on (is_one_of arg ("-o" ∷ "--port" ∷ []) && more) (
          with_text i
            (λ s. at_endpoint primary (λ e. record e { port = to_unsigned 16 (atoi s) }) d))
      or_else on (is_one_of arg ("-fu" ∷ "--failover-user" ∷ []) && more)
          (with_text i (λ s. at_endpoint secondary (λ e. record e { user = s }) d))
      or_else on (is_one_of arg ("-fp" ∷ "--failover-pass" ∷ []) && more)
          (with_text i (λ s. at_endpoint secondary (λ e. record e { pass = s }) d))
      or_else on (is_one_of arg ("-fo" ∷ "--failover-port" ∷ []) && more) (
          with_text i
            (λ s. at_endpoint secondary (λ e. record e { port = to_unsigned 16 (atoi s) }) d))
      or_else on (same_text arg "--work-timeout" && more)
          (with_text i (λ s. record c { worktimeout = atoi s }))
      or_else on (is_one_of arg ("-RH" ∷ "--report-hashrate" ∷ []))
          (ok (i, record c { report_stratum_hashrate = true }))
      or_else on (same_text arg "--display-interval" && more)
          (with_number argv i (λ n. record c { display_interval = unsigned n }))

  module _ (build : Build) (parse : String → Option Parts) (decode trim : String → String) where
    unfoldable pub pool_options : String → (more : Bool) → ℕ → MinerCli → Option Outcome
    pool_options arg more i c =
        on (is_one_of arg ("-F" ∷ "--farm" ∷ []) && more)
          (with_next argv i (λ url. set_farm parse decode trim url c))
        or_else on
            (is_one_of arg ("-FF" ∷ "-SF" ∷ "-FS" ∷ "--farm-failover" ∷ "--stratum-failover" ∷ [])
              && more)
            (with_next argv i (λ url. set_failover parse decode trim url c))
        or_else on (same_text arg "--farm-recheck" && more) (
            with_number argv i
              (λ n. record c { farm_recheck_set = true; farm_recheck_period = unsigned n }))
        or_else on (same_text arg "--farm-retries" && more)
            (with_number argv i (λ n. record c { max_farm_retries = unsigned n }))
        or_else on (is_one_of arg ("-S" ∷ "--stratum" ∷ []) && more)
            (with_next argv i (λ url. set_stratum parse decode trim url c))
        or_else login_options arg more i c
        or_else on (same_text arg "--stratum-ssl") (set_ssl parse decode trim argv more i c)
        or_else credential_options arg more i c
        or_else on (same_text arg "-HWMON") (set_hwmon parse decode trim argv more i c)
        or_else on (same_text arg "--exit") (ok (i, record c { exit_on_error = true }))
        or_else on (same_text arg "-P" && more)
            (with_next argv i (λ url. set_pool parse decode trim url c))

    -- The first branch of the option, if there is one
    unfoldable pub branch : String → (more : Bool) → ℕ → MinerCli → Option Outcome
    branch arg more i c =
        pool_options arg more i c
        or_else on (build.api_core && same_text arg "--api-port" && more)
            (with_text i (λ s. record c { api_port = atoi s }))
        or_else (if build.ethash_cl then opencl_options arg more i c else none)
        or_else on ((build.ethash_cl || build.ethash_cuda) && same_text arg "--list-devices")
            (ok (i, record c { should_list_devices = true }))
        or_else (if build.ethash_cuda then cuda_options arg more i c else none)
        or_else mining_options arg more i c

    -- Deprecated parameters do not go with `-P`.
    unfoldable pub compatible : ℕ × MinerCli → Outcome
    compatible r = if r.1.legacy_parameters && r.1.new_parameters then err bad_argument else ok r

    -- `interpretOption(i, argc, argv)`: nothing if it returns false
    unfoldable pub interpret_option : ℕ → MinerCli → Result CliError (Option (ℕ × MinerCli))
    interpret_option i c = elim (branch (get_or argv i "") (ltb (i + 1) (length argv)) i c) [
      | none ↦ ok none
      | some r ↦ (r >>= compatible >>= λ s. ok (some s))
    ]
