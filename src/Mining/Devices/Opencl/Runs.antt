-- ===== src/Mining/Devices/Opencl/Runs.antt =====
-- libethash-cl/CLMiner.cpp at concrete inputs: a kernel that finds the fourth nonce of its range.
use prog_po_w_miner.Common.{ℕ, ◌+◌, ◌^◌, refl, List, [], ◌∷◌, true, false, All}
use prog_po_w_miner.Common.Integers.{ℤ, pos}
use prog_po_w_miner.Mining.Work.{WorkPackage, no_work}
use prog_po_w_miner.Mining.Devices.{period_seed, same_epoch, upper_64}
use prog_po_w_miner.Mining.Devices.Opencl.{
  init, submit_proof, Loop, act, is_new, prepare, first_nonce, receive, found_nonce, launch, report,
  step_on, mine, work_loop_round,
}
use prog_po_w_miner.Mining.Devices.Opencl.Nonces.{Rounds, begun, round, Proven, Rounds-Proven}

abbrev fourth : ℕ → ℕ → ℕ → List ℕ
fourth header target start = 3 ∷ []

abbrev four : ℤ → ℕ → ℕ → ℕ
four epoch header nonce = 4

abbrev job : WorkPackage
job = record no_work { header = 77; boundary = 2 ^ 200; epoch = pos 3; height = 100 }

-- A range of its own, of the third miner.
abbrev own_start : ℕ
own_start = 2 ^ 41 + 5

abbrev started : Loop
started = record {
  start_nonce = 2 ^ 41 + 105;
  current = record job { start_nonce = 5 };
  old_period_seed = 258410;
  search_buffer = 3 ∷ [];
  header_buffer = 77;
  target_arg = 256;
  start_arg = own_start;
  hash_count = 100;
  actions = init (pos 3) 2584100 true true ∷ [];
}

Rounds-started : Rounds fourth four 100 started
unfolding work_loop_round is_new period_seed same_epoch receive prepare act upper_64 first_nonce
    mine step_on report found_nonce launch
Rounds-started = round 2 own_start job (begun (9 ∷ [])) refl

abbrev found : Loop
found = record started {
  start_nonce = 2 ^ 41 + 205;
  current = record job { start_nonce = 105 };
  start_arg = 2 ^ 41 + 105;
  hash_count = 200;
  actions =
      init (pos 3) 2584100 true true
      ∷ submit_proof
          (record { nonce = 8; mix_hash = 4; work = record job { start_nonce = 5 }; stale = false })
      ∷ [];
}

-- The nonce that was found is 2 ^ 41 + 8.
Rounds-found : Rounds fourth four 100 found
unfolding work_loop_round is_new period_seed same_epoch act mine step_on report found_nonce launch
Rounds-found = round 2 own_start job Rounds-started refl

Rounds-Proven_example : All (Proven fourth four 100) found.actions
Rounds-Proven_example = Rounds-Proven fourth four 100 found Rounds-found
