-- ===== src/DevCore/Worker/Runs.antt =====
-- libdevcore/Worker.cpp at a concrete order of calls and accesses: a worker is started, and then stopped or
-- started again.
use prog_po_w_miner.Common.{ℕ, ◌≤◌, ◌≡◌, refl, true}
use prog_po_w_miner.DevCore.Worker.{
  started, stopping, stopped, killing, working, leaving, exchanged, absent, no_call, in_stop,
  in_destructor, Worker, new_worker, start_working, start_wait, stop_working, stop_wait,
  thread_step, destroy, join,
}
use prog_po_w_miner.DevCore.Worker.Calls.{
  Steps, done, next, start_called, start_waited, stop_called, ran, destructor_called, moves,
  outside,
}
use prog_po_w_miner.DevCore.Worker.Promises.{
  Released, stop_wait-outside, Steps-Released, start_working-lost,
}

abbrev looping : Worker
looping = record { state = started; thread = working; call = no_call }

new-looping : Steps new_worker looping
unfolding start_working start_wait thread_step
new-looping = next (next (next (next done (start_called refl)) ran) ran) (start_waited refl)

abbrev stop_waiting : Worker
stop_waiting = record { state = stopped; thread = exchanged stopping; call = in_stop }

new-stop_waiting : Steps new_worker stop_waiting
unfolding stop_working thread_step
new-stop_waiting = next (next (next new-looping (stop_called refl)) ran) ran

stop_wait-outside_example : outside (moves 7 (stop_wait stop_waiting)).thread ≡ true
unfolding stop_wait
stop_wait-outside_example = stop_wait-outside stop_waiting 7 new-stop_waiting refl refl

abbrev killed : Worker
killed = record { state = killing; thread = working; call = in_destructor }

Steps-Released_example : (n : ℕ) × (n ≤ 5) × Released n killed
unfolding destroy
Steps-Released_example = Steps-Released killed (next new-looping (destructor_called refl))

abbrev failed : Worker
failed = record { state = started; thread = leaving; call = no_call }

start_working-lost_example :
    ((start_wait (start_working failed)).call ≡ no_call)
    × (outside (moves 4 (start_wait (start_working failed))).thread ≡ true)
unfolding thread_step
start_working-lost_example = start_working-lost failed 3 (next new-looping ran) refl refl

-- A worker that is destroyed while it works ends its thread.
killed_ends : (join (moves 5 killed)).thread ≡ absent
unfolding join moves thread_step
killed_ends = refl
