-- ===== src/Pool/Simulation.antt =====
-- libpoolprotocols/testing/SimulateClient.{h,cpp}: a client that makes up its work, harder or easier with
-- the time that the last solution took, and `boundary` of libethcore/BlockHeader.cpp. The time,
-- in nanoseconds, and the drawn header are arguments; so is `eval` of libethcore/EthashAux.cpp.
pub mod Difficulty
mod Runs
use prog_po_w_miner.Common.{
  ℕ, ◌+◌, ◌-◌, ◌/◌, ◌%◌, ◌^◌, List, [], ◌∷◌, ◌++◌, Bool, true, false, not, ◌&&◌, ltb, ◌==◌,
  if◌then◌else◌,
}
use prog_po_w_miner.Common.Integers.{ℤ}
use prog_po_w_miner.Mining.Work.{WorkPackage, Solution}

-- The handlers that the client calls.
pub data Signal : Type 0 where
  handler_connected : Signal
  handler_disconnected : Signal
  handler_work : WorkPackage → Signal
  handler_accepted : Bool → Signal
  handler_rejected : Bool → Signal

-- With the local `current` of the loop.
pub record Simulate : Type 0 where
  pub connected : Bool
  pub upp_difficulty : Bool
  pub difficulty : ℕ
  pub time : ℕ
  pub current : WorkPackage
  pub signals : List Signal

-- `SimulateClient(difficulty, block)` and the beginning of `workLoop()`, with the work of the block.
unfoldable pub new_simulate : ℕ → ℕ → WorkPackage → Simulate
new_simulate difficulty now genesis = record {
  connected = false;
  upp_difficulty = false;
  difficulty = (difficulty + (2 ^ 32 - 1)) % 2 ^ 32;
  time = now;
  current = genesis;
  signals = [];
}

unfoldable pub signal : Signal → Simulate → Simulate
signal x s = record s { signals = s.signals ++ (x ∷ []) }

-- `connect()`
unfoldable pub connect : Simulate → Simulate
connect s = signal handler_connected (record s { connected = true; upp_difficulty = true })

-- `disconnect()`
unfoldable pub disconnect : Simulate → Simulate
disconnect s = signal handler_disconnected (record s { connected = false })

-- `submitSolution(solution)`
unfoldable pub submit_solution : (ℤ → ℕ → ℕ → ℕ) → Solution → Simulate → Simulate
submit_solution eval sol s =
    let s = record s { upp_difficulty = true } in
    if ltb (eval sol.work.epoch sol.work.header sol.nonce) sol.work.boundary
    then signal (handler_accepted false) s
    else signal (handler_rejected false) s

-- The seconds since the last work was made.
unfoldable pub seconds : ℕ → Simulate → ℕ
seconds now s = (now - s.time) / 1000000000

-- The new exponent of the difficulty, an `unsigned`.
unfoldable pub adjusted : ℕ → ℕ → ℕ
adjusted sec d =
    let d = if ltb sec 12 then (d + 1) % 2 ^ 32 else d in
    if ltb 18 sec then (d + (2 ^ 32 - 1)) % 2 ^ 32 else d

-- `u256(1) << m_difficulty`
unfoldable pub shifted : ℕ → ℕ
shifted d = 2 ^ d % 2 ^ 256

-- `BlockHeader::boundary()`, after `noteDirty()`
unfoldable pub boundary : ℕ → ℕ
boundary difficulty = if not (difficulty == 0) then 2 ^ 256 / difficulty % 2 ^ 256 else 0

-- One round of the loop, without its pauses
unfoldable pub simulate_round : ℕ → ℕ → Simulate → Simulate
simulate_round now header s =
    if s.connected && s.upp_difficulty
    then (let d = adjusted (seconds now s) s.difficulty in
        let w = record s.current { header = header; boundary = boundary (shifted d) } in
        signal (handler_work w)
          (record s { upp_difficulty = false; difficulty = d; time = now; current = w }))
    else s
