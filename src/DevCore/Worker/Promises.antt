-- ===== src/DevCore/Worker/Promises.antt =====
-- What the calls of libdevcore/Worker.cpp promise: a stop that returns has ended the work loop, every call
-- returns, and a start can be lost.
use prog_po_w_miner.Common.{ℕ, zero, suc, ◌<◌, ◌≤◌, ◌≡◌, refl, Bool, true, false, arith}
use prog_po_w_miner.DevCore.Worker.{
  WorkerState, starting, started, stopping, stopped, Thread, testing, claiming, working, leaving,
  exchanged, resting, Call, no_call, in_start, in_stop, in_destructor, Worker, new_worker, same,
  compare_exchange, start_working, start_wait, stop_wait, join, advance, thread_step, should_stop,
}
use prog_po_w_miner.DevCore.Worker.Calls.{
  Steps, phase, IsPhase, Steps-IsPhase, new-IsPhase, advance-phase, moves, outside, wait, waits,
}

-- The thread has left `workLoop()` and will not enter it by itself.
unfoldable pub at_rest : WorkerState → Thread → Bool
at_rest stopped (exchanged started) = true
at_rest stopped (exchanged stopping) = true
at_rest stopped resting = true
at_rest _ _ = false

abbrev AtRest : Worker → Type 0
AtRest w = at_rest w.state w.thread ≡ true

advance-at_rest :
    (s : WorkerState) (t : Thread)
    → at_rest s t ≡ true
    → at_rest (advance s t).0 (advance s t).1 ≡ true
unfolding at_rest advance same
advance-at_rest s t h = ground arith

at_rest-outside : (s : WorkerState) (t : Thread) → at_rest s t ≡ true → outside t ≡ true
unfolding at_rest outside
at_rest-outside s t h = ground arith

moves-AtRest : (n : ℕ) (w : Worker) → AtRest w → AtRest (moves n w)
unfolding moves thread_step
moves-AtRest zero w h = h
moves-AtRest (suc n) w h = moves-AtRest n (thread_step w) (advance-at_rest w.state w.thread h)

stop_wait-AtRest :
    (w : Worker)
    → IsPhase w
    → w.call ≡ in_stop
    → (stop_wait w).call ≡ no_call
    → AtRest (stop_wait w)
unfolding stop_wait phase at_rest
stop_wait-AtRest w p c e = ground arith

-- When `stopWorking()` has waited and returns, the thread is outside `workLoop()`, and stays there until
-- the next call.
pub stop_wait-outside :
    (w : Worker) (n : ℕ)
    → Steps new_worker w
    → w.call ≡ in_stop
    → (stop_wait w).call ≡ no_call
    → outside (moves n (stop_wait w)).thread ≡ true
stop_wait-outside w n r c e =
    let last = moves n (stop_wait w) in
    at_rest-outside last.state last.thread
      (moves-AtRest n (stop_wait w) (stop_wait-AtRest w (Steps-IsPhase r new-IsPhase) c e))

-- How many moves of the thread a call still waits for.
left : Call → WorkerState → Thread → ℕ
left in_start starting (exchanged ex) = 4
left in_start starting resting = 3
left in_start starting testing = 2
left in_start starting claiming = 1
left in_stop stopping working = 2
left in_stop stopping leaving = 1
left in_destructor s working = 5
left in_destructor s leaving = 4
left in_destructor s (exchanged ex) = 3
left in_destructor s resting = 2
left in_destructor s testing = 1
left _ _ _ = 0

left-few : (c : Call) (s : WorkerState) (t : Thread) → left c s t ≤ 5
unfolding left
left-few c s t = ground arith

left-advance :
    (c : Call) (s : WorkerState) (t : Thread) (n : ℕ)
    → phase c s t ≡ true
    → left c s t ≡ suc n
    → left c (advance s t).0 (advance s t).1 ≡ n
unfolding phase left advance same compare_exchange
left-advance c s t n p e = ground arith

left-obeys :
    (c : Call) (s : WorkerState) (t : Thread) (n : ℕ)
    → phase c s t ≡ true
    → left c s t ≡ suc n
    → t ≡ working
    → should_stop s ≡ true
unfolding phase left should_stop
left-obeys c s t n p e q = ground arith

left-returns :
    (c : Call) (s : WorkerState) (t : Thread)
    → phase c s t ≡ true
    → left c s t ≡ 0
    → waits (wait (record { state = s; thread = t; call = c })).call ≡ false
unfolding phase left wait waits start_wait stop_wait join
left-returns c s t p e = ground arith

-- The end of a run of the thread while a call waits: the call returns then, and the thread has left
-- `workLoop()` only when it should.
pub record Released (rounds : ℕ) (w : Worker) : Type 0 where
  pub returns : waits (wait (moves rounds w)).call ≡ false
  pub obeys :
      (k : ℕ) → k < rounds → (moves k w).thread ≡ working → should_stop (moves k w).state ≡ true

release-suc :
    (n : ℕ) (w : Worker)
    → IsPhase w
    → left w.call w.state w.thread ≡ suc n
    → Released n (thread_step w)
    → Released (suc n) w
unfolding moves
release-suc n w p e r = record { returns = r.returns; obeys = obeys }
  where
    obeys :
        (k : ℕ) → k < suc n → (moves k w).thread ≡ working → should_stop (moves k w).state ≡ true
    obeys zero l = left-obeys w.call w.state w.thread n p e
    obeys (suc k) l = r.obeys k (omega (arith, l))

release : (n : ℕ) (w : Worker) → IsPhase w → left w.call w.state w.thread ≡ n → Released n w
unfolding moves thread_step
release zero w p e = record {
  returns = left-returns w.call w.state w.thread p e;
  obeys = λ k l. absurd (omega (arith, l));
}
release (suc n) w p e = release-suc n w p e (
    release n (thread_step w) (advance-phase w.call w.state w.thread p)
      (left-advance w.call w.state w.thread n p e))

-- A call that waits is released after at most five accesses of the thread, if `workLoop()` returns when
-- it should.
pub Steps-Released : (w : Worker) → Steps new_worker w → (n : ℕ) × (n ≤ 5) × Released n w
Steps-Released w r =
    let p = Steps-IsPhase r new-IsPhase in
    (left w.call w.state w.thread, left-few w.call w.state w.thread, release _ w p refl)

start_working-leaving :
    (w : Worker)
    → IsPhase w
    → w.call ≡ no_call
    → w.thread ≡ leaving
    → ((start_wait (start_working w)).call ≡ no_call)
      × AtRest (thread_step (start_wait (start_working w)))
unfolding phase start_working start_wait thread_step advance at_rest
start_working-leaving w p c l = ground arith

-- A start while the thread is behind the end of a `workLoop()` that returned by itself has no effect: the
-- call returns at once, and the loop is not entered again.
pub start_working-lost :
    (w : Worker) (n : ℕ)
    → Steps new_worker w
    → w.call ≡ no_call
    → w.thread ≡ leaving
    → ((start_wait (start_working w)).call ≡ no_call)
      × (outside (moves (suc n) (start_wait (start_working w))).thread ≡ true)
unfolding moves
start_working-lost w n r c l =
    let (returned, after) = start_working-leaving w (Steps-IsPhase r new-IsPhase) c l in
    let last = moves n (thread_step (start_wait (start_working w))) in
    (returned, at_rest-outside last.state last.thread (moves-AtRest n _ after))
