-- ===== src/DevCore/Worker/Calls.antt =====
-- The calls of libdevcore/Worker.cpp and its thread in any order: what holds between them, and that no call
-- waits for ever.
use prog_po_w_miner.Common.{ℕ, zero, suc, ◌≡◌, refl, Bool, true, false, arith}
use prog_po_w_miner.DevCore.Worker.{
  WorkerState, starting, started, stopping, stopped, killing, Thread, absent, testing, claiming,
  working, leaving, exchanged, resting, ended, Call, no_call, in_start, in_stop, in_destructor,
  destroyed, Worker, new_worker, same, compare_exchange, start_working, start_wait, stop_working,
  stop_wait, destroy, join, advance, thread_step,
}

-- A call begins when no other one runs; the thread moves at any time.
pub data Step : Worker → Worker → Type 0 where
  start_called : {w : Worker} → w.call ≡ no_call → Step w (start_working w)
  start_waited : {w : Worker} → w.call ≡ in_start → Step w (start_wait w)
  stop_called : {w : Worker} → w.call ≡ no_call → Step w (stop_working w)
  stop_waited : {w : Worker} → w.call ≡ in_stop → Step w (stop_wait w)
  destructor_called : {w : Worker} → w.call ≡ no_call → Step w (destroy w)
  destructor_waited : {w : Worker} → w.call ≡ in_destructor → Step w (join w)
  ran : {w : Worker} → Step w (thread_step w)

pub data Steps : Worker → Worker → Type 0 where
  done : {w : Worker} → Steps w w
  next : {v w u : Worker} → Steps v w → Step w u → Steps v u

-- The states in which the thread and a call can stand together.
unfoldable pub phase : Call → WorkerState → Thread → Bool
phase no_call starting absent = true
phase no_call started working = true
phase no_call started leaving = true
phase no_call stopped (exchanged started) = true
phase no_call stopped (exchanged stopping) = true
phase no_call stopped resting = true
phase in_start starting testing = true
phase in_start starting claiming = true
phase in_start starting (exchanged started) = true
phase in_start starting (exchanged stopping) = true
phase in_start starting resting = true
phase in_start started working = true
phase in_start started leaving = true
phase in_start stopped (exchanged started) = true
phase in_start stopped resting = true
phase in_stop stopping working = true
phase in_stop stopping leaving = true
phase in_stop stopped (exchanged started) = true
phase in_stop stopped (exchanged stopping) = true
phase in_stop stopped resting = true
phase in_destructor killing working = true
phase in_destructor killing leaving = true
phase in_destructor killing (exchanged started) = true
phase in_destructor killing (exchanged stopping) = true
phase in_destructor stopped (exchanged killing) = true
phase in_destructor killing resting = true
phase in_destructor killing testing = true
phase in_destructor killing ended = true
phase destroyed killing absent = true
phase destroyed starting absent = true
phase _ _ _ = false

abbrev pub IsPhase : Worker → Type 0
IsPhase w = phase w.call w.state w.thread ≡ true

pub advance-phase :
    (c : Call) (s : WorkerState) (t : Thread)
    → phase c s t ≡ true
    → phase c (advance s t).0 (advance s t).1 ≡ true
unfolding phase advance same compare_exchange
advance-phase c s t h = ground arith

pub Step-IsPhase : {w u : Worker} → Step w u → IsPhase w → IsPhase u
unfolding phase start_working start_wait stop_working stop_wait destroy join thread_step advance
Step-IsPhase (start_called {w} c) p = ground arith
Step-IsPhase (start_waited {w} c) p = ground arith
Step-IsPhase (stop_called {w} c) p = ground arith
Step-IsPhase (stop_waited {w} c) p = ground arith
Step-IsPhase (destructor_called {w} c) p = ground arith
Step-IsPhase (destructor_waited {w} c) p = ground arith
Step-IsPhase (ran {w}) p = advance-phase w.call w.state w.thread p

pub Steps-IsPhase : {v w : Worker} → Steps v w → IsPhase v → IsPhase w
Steps-IsPhase done p = p
Steps-IsPhase (next r s) p = Step-IsPhase s (Steps-IsPhase r p)

pub new-IsPhase : IsPhase new_worker
unfolding phase
new-IsPhase = refl

-- The thread moves on `n` times while no call does.
unfoldable pub moves : ℕ → Worker → Worker
moves zero w = w
moves (suc n) w = moves n (thread_step w)

-- The thread is not between the start and the end of `workLoop()`.
unfoldable pub outside : Thread → Bool
outside working = false
outside claiming = false
outside testing = false
outside leaving = false
outside _ = true

-- The rest of a call that waits.
unfoldable pub wait : Worker → Worker
wait w = elim (w.call) [
  | in_start ↦ start_wait w
  | in_stop ↦ stop_wait w
  | in_destructor ↦ join w
  | no_call ↦ w
  | destroyed ↦ w
]

unfoldable pub waits : Call → Bool
waits in_start = true
waits in_stop = true
waits in_destructor = true
waits _ = false
