-- ===== src/Mining/Work.antt =====
-- libethcore/EthashAux.h and libethcore/Miner.h: work packages, solutions, miners and their counts.
use prog_po_w_miner.Common.{
  ℕ, ◌+◌, ◌*◌, ◌/◌, ◌%◌, ◌^◌, List, Bool, true, false, ◌==◌, if◌then◌else◌,
}
use prog_po_w_miner.Common.Integers.{ℤ, negsuc}

-- A hash (`h256`) is a number of 256 bits.
pub record WorkPackage : Type 0 where
  pub boundary : ℕ
  pub header : ℕ
  pub job : ℕ
  pub epoch : ℤ
  pub start_nonce : ℕ
  pub height : ℕ
  pub ex_size_bits : ℤ
  pub job_len : ℕ

-- `WorkPackage()`
abbrev pub no_work : WorkPackage
no_work = record {
  boundary = 0;
  header = 0;
  job = 0;
  epoch = negsuc 0;
  start_nonce = 0;
  height = 0;
  ex_size_bits = negsuc 0;
  job_len = 8;
}

pub record Solution : Type 0 where
  pub nonce : ℕ
  pub mix_hash : ℕ
  pub work : WorkPackage
  pub stale : Bool

-- Without the readings of the device monitors.
pub record WorkingProgress : Type 0 where
  pub hashes : ℕ
  pub ms : ℕ
  pub miners_hashes : List ℕ

-- `rate()`, with the product in 64 bits.
unfoldable pub rate : WorkingProgress → ℕ
rate p = if p.ms == 0 then 0 else p.hashes * 1000 % 2 ^ 64 / p.ms

-- `minerRate()`
unfoldable pub miner_rate : WorkingProgress → ℕ → ℕ
miner_rate p n = if p.ms == 0 then 0 else n * 1000 % 2 ^ 64 / p.ms

-- The counters are `unsigned`.
pub record SolutionStats : Type 0 where
  pub accepts : ℕ
  pub rejects : ℕ
  pub failures : ℕ
  pub accepted_stales : ℕ
  pub rejected_stales : ℕ

abbrev pub no_stats : SolutionStats
no_stats = record {
  accepts = 0;
  rejects = 0;
  failures = 0;
  accepted_stales = 0;
  rejected_stales = 0;
}

-- The name of a kind of miners, as the program gives them to the farm.
pub data Sealer : Type 0 where
  opencl cuda : Sealer

unfoldable pub same_sealer : Sealer → Sealer → Bool
same_sealer opencl opencl = true
same_sealer cuda cuda = true
same_sealer opencl cuda = false
same_sealer cuda opencl = false

-- A miner, without what its device code keeps; `kicks` counts the calls of `kick_miner`.
pub record Miner : Type 0 where
  pub sealer : Sealer
  pub index : ℕ
  pub work : WorkPackage
  pub work_switch_start : ℕ
  pub hash_count : ℕ
  pub kicks : ℕ
  pub working : Bool

unfoldable pub new_miner : Sealer → ℕ → Miner
new_miner s i = record {
  sealer = s;
  index = i;
  work = no_work;
  work_switch_start = 0;
  hash_count = 0;
  kicks = 0;
  working = false;
}

-- `startWorking()` of the thread of a miner
unfoldable pub start_working : Miner → Miner
start_working m = record m { working = true }

-- `Miner::setWork` at the given time
unfoldable pub set_miner_work : ℕ → WorkPackage → Miner → Miner
set_miner_work now w m = record m { work = w; work_switch_start = now; kicks = m.kicks + 1 }

unfoldable pub reset_hash_count : Miner → Miner
reset_hash_count m = record m { hash_count = 0 }

-- `addHashCount(_n)`
unfoldable pub add_hash_count : ℕ → Miner → Miner
add_hash_count n m = record m { hash_count = (m.hash_count + n) % 2 ^ 64 }

-- `get_start_nonce()` with the farm's random start
unfoldable pub get_start_nonce : ℕ → Miner → ℕ
get_start_nonce scrambler m = (scrambler + m.index * 2 ^ 40 % 2 ^ 64) % 2 ^ 64
