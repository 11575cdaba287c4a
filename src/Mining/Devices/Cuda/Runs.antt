-- ===== src/Mining/Devices/Cuda/Runs.antt =====
-- libethash-cuda/CUDAMiner.cpp at concrete inputs: device 3 with two streams and batches of 1000, whose
-- kernels find the fourth nonce of their range.
use prog_po_w_miner.Common.{
  ℕ, ◌+◌, ◌*◌, ◌%◌, ◌^◌, ◌≤◌, ◌≡◌, ◌≢◌, refl, List, [], ◌∷◌, ◌++◌, true, false, some, All, arith,
}
use prog_po_w_miner.Common.Integers.{ℤ, pos}
use prog_po_w_miner.Mining.Work.{WorkPackage, no_work}
use prog_po_w_miner.Mining.Devices.{period_seed, same_epoch, upper_64}
use prog_po_w_miner.Mining.Devices.Cuda.{
  Hit, Report, submit_proof, Search, max_nonce, takes_over, initialize, enter, next_nonce,
  nonce_base, report_hit, report_hits, advance, search_round, kick_miner, new_loop, searches,
  is_new, set_up, compile, begin_search, turn, forget,
}
use prog_po_w_miner.Mining.Devices.Cuda.Ranges.{next_nonce-apart}
use prog_po_w_miner.Mining.Devices.Cuda.Hits.{IsHit, Rounds, entered, round, kicked, Rounds-IsHit}

abbrev fourth : ℕ → ℕ → ℕ → List Hit
fourth header target start = record { gid = 3; mix = start } ∷ []

abbrev checked : ℤ → ℕ → ℕ → ℕ × ℕ
checked epoch header nonce = (0, 4)

abbrev job : WorkPackage
job = record no_work { header = 77; boundary = 2 ^ 200; epoch = pos 3; height = 100 }

abbrev idle : Search
idle = record {
  current_header = 0;
  current_target = 0;
  current_nonce = 0;
  starting_nonce = 0;
  current_index = 0;
  search_buf = λ k. [];
  new_work = false;
  hash_count = 0;
  reports = [];
}

-- The search for the job, from the start nonce 5.
abbrev begun : Search
begun = record idle { current_header = 77; current_target = 256; current_nonce = 5 }

turn-begun :
    turn (some true) 3 5 job (new_loop idle)
    ≡ searches
        (record { current = job; old_period_seed = 258410; search = begun; kernels = 2584100 ∷ [] })
unfolding turn is_new period_seed same_epoch set_up compile begin_search enter takes_over initialize
    upper_64 forget
turn-begun = refl

-- Three kernels and a kick for new work.
abbrev third : Search
third =
    (search_round fourth checked true 3 1000 2 false job (
      kick_miner
        (search_round fourth checked true 3 1000 2 false job
          (search_round fourth checked true 3 1000 2 false job begun).0).0)).0

begun-third : Rounds fourth checked true 3 1000 2 begun 3 third
unfolding kick_miner search_round advance
begun-third = round false job (kicked (round false job (round false job entered refl) refl)) refl

begun_limit : next_nonce 3 1000 5 % 2 ^ 36 + 3 * 1000 ≤ max_nonce
unfolding next_nonce
begun_limit = omega arith

Rounds-IsHit_example :
    (told : List Report) × (third.reports ≡ [] ++ told)
    × All (IsHit fourth checked true 3 1000 2 77 256) told
Rounds-IsHit_example =
    Rounds-IsHit fourth checked true 3 1000 2 begun third 3 begun-third refl (λ k. refl)
      (omega arith) (omega arith) (omega arith) begun_limit

-- The kernel of the first round started from 3 * 2 ^ 36 + 1005.
third_reports :
    third.reports
    ≡ submit_proof (record {
      nonce = 3 * 2 ^ 36 + 1008;
      mix_hash = 3 * 2 ^ 36 + 1005;
      work = job;
      stale = true;
    })
      ∷ []
unfolding search_round advance kick_miner next_nonce nonce_base report_hits report_hit
third_reports = refl

next_nonce-apart_example :
    (next_nonce 3 1000 5 + 7) % 2 ^ 64 ≢ (next_nonce 2 1000 (2 ^ 40) + 999) % 2 ^ 64
next_nonce-apart_example =
    next_nonce-apart 3 2 1000 1000 5 (2 ^ 40) 7 999 (omega arith) (omega arith) (omega arith)
      (omega arith) (omega arith)
