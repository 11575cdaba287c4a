-- ===== src/Cli/Execution/Instances.antt =====
-- How many miners `MinerCLI::execute` of ethminer/MinerAux.h asks for.
use prog_po_w_miner.Common.{◌<◌, ◌≡◌, List, [], ◌∷◌, Bool, true, false, length, ltb, arith}
use prog_po_w_miner.Pool.Manager.{mixed}
use prog_po_w_miner.Cli.{Build, MinerCli}
use prog_po_w_miner.Cli.Execution.{
  Told, set_cuda_instances, set_up_cl, set_up_cuda, uses_cl, uses_cuda, execute,
}

-- Whether something is told
pub data Tells (t : Told) : List Told → Type 0 where
  now : {ts : List Told} → Tells t (t ∷ ts)
  later : {s : Told} {ts : List Told} → Tells t ts → Tells t (s ∷ ts)

-- In mixed mining with chosen OpenCL devices and no chosen CUDA devices, as many instances are asked for of
-- the CUDA miner as there are chosen OpenCL devices, whatever number of threads was set.
pub execute-mixed_instances :
    (b : Build) (cuda_configured : Bool) (c : MinerCli)
    → b.ethash_cl ≡ true
    → b.ethash_cuda ≡ true
    → c.miner_type ≡ mixed
    → c.should_list_devices ≡ false
    → c.cuda_devices ≡ []
    → 0 < length c.opencl_devices
    → Tells (set_cuda_instances (length c.opencl_devices)) (execute b true cuda_configured c).0
unfolding execute set_up_cl set_up_cuda uses_cl uses_cuda
execute-mixed_instances b cuda c has_cl has_cuda m l none some =
    let chosen : ltb 0 (length c.opencl_devices) ≡ true = ground (arith, some) in
    rw (l, m, has_cl, has_cuda, chosen, none) (later (later (later (later (later now)))))
