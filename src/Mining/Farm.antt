-- ===== src/Mining/Farm.antt =====
-- libethcore/Farm.h: the farm, which starts and stops the miners, gives them work and collects their
-- counts. Times are in nanoseconds.
pub mod Steps
pub mod Validity
pub mod Nonces
pub mod Counts
pub mod Restart
use prog_po_w_miner.Common.{
  ℕ, zero, suc, ◌+◌, ◌-◌, ◌/◌, ◌%◌, ◌^◌, List, [], ◌∷◌, ◌++◌, map, Bool, true, false, not, ◌&&◌,
  Option, none, some, length, drop, ltb, ◌==◌, if◌then◌else◌,
}
use prog_po_w_miner.Common.Result.{Result, ok, err}
use prog_po_w_miner.Common.Text.{text, to_string}
use Prim.Native.String.{String}
use prog_po_w_miner.Mining.Work.{
  WorkPackage, no_work, WorkingProgress, SolutionStats, no_stats, Sealer, same_sealer, Miner,
  new_miner, start_working, set_miner_work, reset_hash_count,
}

-- The thread that runs the timer: not created, running, or returned and not yet joined.
pub data ServiceThread : Type 0 where
  absent running returned : ServiceThread

-- `sealers` gives the number of devices of each kind that is set up. Hardware monitors, mutexes and
-- the handlers, which the pool manager sets once, have no field.
pub record Farm : Type 0 where
  pub miners : List Miner
  pub work : WorkPackage
  pub is_mining : Bool
  pub sealers : Sealer → Option ℕ
  pub last_sealer : Option Sealer
  pub last_mixed : Bool
  pub last_start : ℕ
  pub timer_armed : Bool
  pub service : ServiceThread
  pub service_stopped : Bool
  pub last_progresses : List WorkingProgress
  pub progress : WorkingProgress
  pub solution_stats : SolutionStats
  pub pool_addresses : String
  pub nonce_scrambler : ℕ

-- `Farm()` with the drawn start of the nonces, and the kinds of miners of `setSealers`.
unfoldable pub new_farm : ℕ → (Sealer → Option ℕ) → Farm
new_farm scrambler sealers = record {
  miners = [];
  work = no_work;
  is_mining = false;
  sealers = sealers;
  last_sealer = none;
  last_mixed = false;
  last_start = 0;
  timer_armed = false;
  service = absent;
  service_stopped = false;
  last_progresses = [];
  progress = record { hashes = 0; ms = 0; miners_hashes = [] };
  solution_stats = no_stats;
  pool_addresses = "";
  nonce_scrambler = scrambler;
}

abbrev pub smooth_interval : ℕ
smooth_interval = 10000

unfoldable pub sum_64 : List ℕ → ℕ
sum_64 [] = 0
sum_64 (n ∷ ns) = (n + sum_64 ns) % 2 ^ 64

-- What the miners counted since the last collection.
unfoldable pub collected : ℕ → Farm → WorkingProgress
collected now f =
    let counts = map (λ (m : Miner). m.hash_count) f.miners in
    record { hashes = sum_64 counts; ms = (now - f.last_start) / 1000000; miners_hashes = counts }

-- At most one progress is dropped, the oldest.
unfoldable pub smoothed : List WorkingProgress → List WorkingProgress
smoothed ps =
    if ltb smooth_interval (sum_64 (map (λ (p : WorkingProgress). p.ms) ps)) then drop 1 ps else ps

-- `collectHashRate()`
unfoldable pub collect_hash_rate : ℕ → Farm → Farm
collect_hash_rate now f =
    let p = collected now f in
    record f {
      last_start = now;
      miners = map reset_hash_count f.miners;
      last_progresses =
          smoothed (if ltb 0 p.hashes then f.last_progresses ++ (p ∷ []) else f.last_progresses);
    }

-- `setWork(_wp)`
unfoldable pub set_work : ℕ → WorkPackage → Farm → Farm
set_work now wp f =
    let f = collect_hash_rate now f in
    if wp.header == f.work.header && wp.start_nonce == f.work.start_nonce
    then f
    else record f { work = wp; miners = map (set_miner_work now wp) f.miners }

-- `start` waits for the service thread under the mutex of the miners; it never returns if that
-- thread does not.
pub data StartError : Type 0 where
  blocked : StartError

-- The loop of `start`: the miners with the indices from `start` on are created and start to work.
unfoldable pub create_miners : Sealer → ℕ → ℕ → List Miner
create_miners s zero start = []
create_miners s (suc n) start = start_working (new_miner s start) ∷ create_miners s n (start + 1)

-- The timer is armed. A thread that returned is joined and the service reset; a thread that runs
-- with an armed timer never returns, since each round arms the timer again (or waits for the mutex).
-- A new thread returns at once if the service was stopped before.
unfoldable pub start_service : Farm → Result StartError Farm
start_service f = elim f.service [
  | running ↦ err blocked
  | returned ↦ ok (record f { timer_armed = true; service = running; service_stopped = false })
  | absent ↦
      ok
        (record f { timer_armed = true; service = if f.service_stopped then returned else running })
]

unfoldable pub is_same_sealer : Option Sealer → Sealer → Bool
is_same_sealer none s = false
is_same_sealer (some t) s = same_sealer t s

-- The rest of `start`, with `n` devices of the kind.
unfoldable pub start_with : Sealer → Bool → ℕ → Farm → Result StartError (Bool × Farm)
start_with s mixed n f =
    let kept = if mixed then f.miners else [] in
    elim (start_service (record f {
      miners = kept ++ create_miners s n (length kept);
      is_mining = true;
      last_sealer = some s;
      last_mixed = mixed;
    })) [ ok g ↦ ok (true, g) | err e ↦ err e ]

-- `start(_sealer, mixed)`
unfoldable pub start : Sealer → Bool → Farm → Result StartError (Bool × Farm)
start s mixed f =
    if not (length f.miners == 0) && is_same_sealer f.last_sealer s
    then ok (true, f)
    else elim (f.sealers s) [ none ↦ ok (false, f) | some n ↦ start_with s mixed n f ]

-- `stop()`
unfoldable pub stop : Farm → Farm
stop f = record f {
  miners = [];
  is_mining = false;
  timer_armed = false;
  service = elim f.service [ absent ↦ absent | running ↦ returned | returned ↦ returned ];
  service_stopped = true;
  last_progresses = [];
}

-- `processHashRate(ec)`
unfoldable pub process_hash_rate : Bool → ℕ → Farm → Farm
process_hash_rate ec now f =
    if not ec then record (collect_hash_rate now f) { timer_armed = true } else f

-- The counts of a progress are added, as far as there are miners.
unfoldable pub add_counts : List ℕ → List ℕ → List ℕ
add_counts [] counts = []
add_counts (t ∷ ts) [] = t ∷ ts
add_counts (t ∷ ts) (c ∷ cs) = (t + c) % 2 ^ 64 ∷ add_counts ts cs

unfoldable pub add_progress : WorkingProgress → WorkingProgress → WorkingProgress
add_progress p cp = record {
  ms = (p.ms + cp.ms) % 2 ^ 64;
  hashes = (p.hashes + cp.hashes) % 2 ^ 64;
  miners_hashes = add_counts p.miners_hashes cp.miners_hashes;
}

unfoldable pub add_progresses : WorkingProgress → List WorkingProgress → WorkingProgress
add_progresses p [] = p
add_progresses p (cp ∷ cps) = add_progresses (add_progress p cp) cps

-- `miningProgress()`
unfoldable pub mining_progress : Farm → WorkingProgress × Farm
mining_progress f =
    let zeros = map (λ (m : Miner). 0) f.miners in
    let p =
      add_progresses (record { ms = 0; hashes = 0; miners_hashes = zeros }) f.last_progresses in
    (p, record f { progress = p })

-- `failedSolution()`, `acceptedSolution(_stale)` and `rejectedSolution(_stale)`
unfoldable pub failed_solution : Farm → Farm
failed_solution f =
    let s = f.solution_stats in
    record f { solution_stats = record s { failures = (s.failures + 1) % 2 ^ 32 } }

unfoldable pub accepted_solution : Bool → Farm → Farm
accepted_solution stale f =
    let s = f.solution_stats in
    if not stale
    then record f { solution_stats = record s { accepts = (s.accepts + 1) % 2 ^ 32 } }
    else record f {
      solution_stats = record s { accepted_stales = (s.accepted_stales + 1) % 2 ^ 32 };
    }

unfoldable pub rejected_solution : Bool → Farm → Farm
rejected_solution stale f =
    let s = f.solution_stats in
    if not stale
    then record f { solution_stats = record s { rejects = (s.rejects + 1) % 2 ^ 32 } }
    else record f {
      solution_stats = record s { rejected_stales = (s.rejected_stales + 1) % 2 ^ 32 };
    }

-- `set_pool_addresses(host, port)`
unfoldable pub set_pool_addresses : String → ℕ → Farm → Farm
set_pool_addresses host port f = record f {
  pool_addresses = text (host ∷ ":" ∷ to_string port ∷ []);
}
