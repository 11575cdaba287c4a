-- ===== src/Mining/Runs.antt =====
-- libethcore/Farm.h at concrete inputs: a farm of two OpenCL devices and one CUDA device.
use prog_po_w_miner.Common.{
  ℕ, ◌+◌, ◌%◌, ◌^◌, ◌≡◌, ◌≢◌, refl, true, false, Option, some, length, set, All, arith,
}
use prog_po_w_miner.Common.Integers.{pos}
use prog_po_w_miner.Common.Result.{ok}
use prog_po_w_miner.Mining.Work.{
  WorkPackage, no_work, Miner, Sealer, opencl, cuda, new_miner, start_working, set_miner_work,
  reset_hash_count, add_hash_count, get_start_nonce,
}
use prog_po_w_miner.Mining.Farm.{
  Farm, new_farm, is_same_sealer, start_with, start_service, running, create_miners, start, stop,
  set_work, sum_64, mining_progress, add_progress, add_progresses, collect_hash_rate, collected,
  smoothed, process_hash_rate,
}
use prog_po_w_miner.Mining.Farm.Steps.{
  started, work_set, counted, timer_fired, Steps, done, next, IsValid,
}
use prog_po_w_miner.Mining.Farm.Validity.{Steps-IsValid}
use prog_po_w_miner.Mining.Farm.Nonces.{Steps-nonces_apart}
use prog_po_w_miner.Mining.Farm.Counts.{Steps-report_adds}
use prog_po_w_miner.Mining.Farm.Restart.{restart-same_work}

abbrev devices : Sealer → Option ℕ
devices opencl = some 2
devices cuda = some 1

abbrev new : Farm
unfolding new_farm
new = new_farm 18446744073709551615 devices

new-IsValid : IsValid new
unfolding new_farm
new-IsValid = record { numbered = tt; adds = tt; resting = (refl, refl, refl, refl) }

-- The farm after its first start.
abbrev mining : Farm
mining = record new {
  miners = create_miners opencl 2 0;
  is_mining = true;
  last_sealer = some opencl;
  timer_armed = true;
  service = running;
}

start-new : start opencl false new ≡ ok (true, mining)
unfolding new_farm start start_with start_service create_miners is_same_sealer
start-new = refl

abbrev job : WorkPackage
job = record no_work { boundary = 1000; header = 77; job = 5; epoch = pos 3; start_nonce = 1 }

abbrev given : Farm
given = set_work 5000000 job mining

new-given : Steps new given
new-given = next (next done (started opencl false true start-new)) (work_set 5000000 job)

abbrev worker : ℕ → Miner
worker i = record {
  sealer = opencl;
  index = i;
  work = job;
  work_switch_start = 5000000;
  hash_count = 0;
  kicks = 1;
  working = true;
}

Steps-nonces_apart_example :
    (get_start_nonce 18446744073709551615 (worker 0) + 12) % 2 ^ 64
    ≢ (get_start_nonce 18446744073709551615 (worker 1) + 0) % 2 ^ 64
unfolding set_work collect_hash_rate set_miner_work reset_hash_count new_farm create_miners
    new_miner start_working
Steps-nonces_apart_example =
    Steps-nonces_apart new given 0 1 12 0 (worker 0) (worker 1) new-IsValid new-given (omega arith)
      (omega arith) refl refl (omega arith) (omega arith) (omega arith)

abbrev counted_farm : Farm
counted_farm =
    process_hash_rate false 9000000000
      (record given { miners = set given.miners 1 (add_hash_count 600 (worker 1)) })

new-counted : Steps new counted_farm
unfolding set_work collect_hash_rate set_miner_work reset_hash_count new_farm create_miners
    new_miner start_working
new-counted = next (next new-given (counted 1 600 (worker 1) refl)) (timer_fired false 9000000000)

Steps-report_adds_example :
    sum_64 ((mining_progress counted_farm).0.miners_hashes)
    ≡ (mining_progress counted_farm).0.hashes
Steps-report_adds_example = Steps-report_adds new counted_farm new-IsValid new-counted

counted_hashes : (mining_progress counted_farm).0.hashes ≡ 600
unfolding mining_progress process_hash_rate collect_hash_rate collected sum_64 smoothed set_work
    set_miner_work reset_hash_count new_farm create_miners new_miner start_working add_hash_count
    add_progresses add_progress
counted_hashes = refl

restart-same_work_example :
    (g : Farm) × (start opencl false (stop given) ≡ ok (true, g))
    × (length g.miners ≡ 2)
    × All (λ (m : Miner). m.work ≡ no_work) ((set_work 6000000 given.work g).miners)
unfolding set_work collect_hash_rate new_farm
restart-same_work_example =
    restart-same_work opencl 2 6000000 given (Steps-IsValid new-given new-IsValid) refl refl
