-- ===== src/Pool/Simulation/Runs.antt =====
-- libpoolprotocols/testing/SimulateClient.cpp at concrete inputs.
use prog_po_w_miner.Common.{ℕ, ◌+◌, ◌*◌, ◌^◌, ◌≤◌, ◌≡◌, refl, [], ◌∷◌, ◌++◌, false, arith}
use prog_po_w_miner.Common.Integers.{ℤ}
use prog_po_w_miner.Mining.Work.{no_work, Solution}
use prog_po_w_miner.Pool.Simulation.{
  handler_work, Simulate, new_simulate, signal, connect, submit_solution, seconds, adjusted,
  simulate_round,
}
use prog_po_w_miner.Pool.Simulation.Difficulty.{verdict, simulate_round-solution}

-- A client that was set up with an exponent of 20, connected.
abbrev ready : Simulate
unfolding new_simulate connect signal
ready = connect (new_simulate 20 1000 no_work)

abbrev solved : Solution
solved = record {
  nonce = 8;
  mix_hash = 2;
  work = record no_work { boundary = 100; header = 5 };
  stale = false;
}

abbrev eval : ℤ → ℕ → ℕ → ℕ
eval epoch header nonce = header + nonce

simulate_round-solution_example :
    (t : Simulate) × (simulate_round 5000001000 77 (submit_solution eval solved ready) ≡ t)
    × (t.signals ≡ (ready.signals ++ (verdict eval solved ∷ [])) ++ (handler_work t.current ∷ []))
    × (t.current.boundary * 2 ^ t.difficulty ≡ 2 ^ 256)
    × (t.difficulty ≤ 20)
    × (19 ≤ t.difficulty + 1)
    × (simulate_round 6000000000 78 t ≡ t)
unfolding new_simulate connect signal
simulate_round-solution_example =
    simulate_round-solution eval solved 5000001000 77 6000000000 78 ready refl (omega arith)
      (omega arith)

-- A solution after five seconds makes it harder, and one after twenty seconds easier.
adjusted_quick : adjusted (seconds 5000001000 ready) ready.difficulty ≡ 20
unfolding new_simulate connect signal seconds adjusted
adjusted_quick = refl

adjusted_slow : adjusted (seconds 20000001000 ready) ready.difficulty ≡ 18
unfolding new_simulate connect signal seconds adjusted
adjusted_slow = refl
