-- ===== src/Mining/Farm/Steps.antt =====
-- The life of the farm of libethcore/Farm.h: the calls of the pool manager, the timer and the miners
-- in any order, and what holds between them.
use prog_po_w_miner.Common.{
  ℕ, suc, ◌≤◌, ◌≡◌, List, [], ◌∷◌, Bool, true, false, some, length, set, get_elem?, All,
}
use prog_po_w_miner.Common.Result.{ok}
use prog_po_w_miner.Mining.Work.{WorkPackage, WorkingProgress, Sealer, Miner, add_hash_count}
use prog_po_w_miner.Mining.Farm.{
  Farm, ServiceThread, absent, running, returned, sum_64, set_work, start, stop, process_hash_rate,
  mining_progress, failed_solution, accepted_solution, rejected_solution, set_pool_addresses,
}
use Prim.Native.String.{String}

-- A call of `start` that blocks is no step. The manager stops only a farm that is mining.
pub data Step : Farm → Farm → Type 0 where
  work_set : (now : ℕ) (wp : WorkPackage) {f : Farm} → Step f (set_work now wp f)
  started : (s : Sealer) (mixed b : Bool) {f g : Farm} → start s mixed f ≡ ok (b, g) → Step f g
  stopped : {f : Farm} → f.is_mining ≡ true → Step f (stop f)
  timer_fired : (ec : Bool) (now : ℕ) {f : Farm} → Step f (process_hash_rate ec now f)
  counted :
      (i n : ℕ) (m : Miner) {f : Farm}
      → get_elem? f.miners i ≡ some m
      → Step f (record f { miners = set f.miners i (add_hash_count n m) })
  reported : {f : Farm} → Step f ((mining_progress f).1)
  failed : {f : Farm} → Step f (failed_solution f)
  accepted : (stale : Bool) {f : Farm} → Step f (accepted_solution stale f)
  rejected : (stale : Bool) {f : Farm} → Step f (rejected_solution stale f)
  pool_changed : (host : String) (port : ℕ) {f : Farm} → Step f (set_pool_addresses host port f)

pub data Steps : Farm → Farm → Type 0 where
  done : {f : Farm} → Steps f f
  next : {f g h : Farm} → Steps f g → Step g h → Steps f h

-- The miners are numbered in order from the given index on.
abbrev pub Numbered : ℕ → List Miner → Type 0
Numbered k [] = Unit {0}
Numbered k (m ∷ ms) = (m.index ≡ k) × Numbered (suc k) ms

-- A progress has counts of at most the given number of miners, and they add up to its hashes.
abbrev pub Adds : ℕ → WorkingProgress → Type 0
Adds n p = (length p.miners_hashes ≤ n) × (sum_64 p.miners_hashes ≡ p.hashes)

-- A service thread that does not run goes with a farm without miners and counts.
abbrev pub Resting : ServiceThread → Farm → Type 0
Resting running f = f.is_mining ≡ true
Resting absent f =
    (f.is_mining ≡ false) × (f.miners ≡ []) × (f.last_progresses ≡ []) × (f.service_stopped ≡ false)
Resting returned f = (f.is_mining ≡ false) × (f.miners ≡ []) × (f.last_progresses ≡ [])

pub record IsValid (f : Farm) : Type 0 where
  pub numbered : Numbered 0 f.miners
  pub adds : All (Adds (length f.miners)) f.last_progresses
  pub resting : Resting f.service f
