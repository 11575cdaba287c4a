-- ===== src/DevCore/Worker.antt =====
-- libdevcore/Worker.{h,cpp}: a worker with its thread. The calls hold `x_work`, so that one of them runs at
-- a time; the thread and the call that runs take turns in any order, an access to `m_state` at a time.
pub mod Calls
pub mod Promises
mod Runs
use prog_po_w_miner.Common.{Bool, true, false, not, ◌||◌, if◌then◌else◌}

pub data WorkerState : Type 0 where
  starting started stopping stopped killing : WorkerState

unfoldable pub same : WorkerState → WorkerState → Bool
same starting starting = true
same started started = true
same stopping stopping = true
same stopped stopped = true
same killing killing = true
same _ _ = false

-- Where the thread stands: before the test of its outer loop, before the exchange for `Started`, in
-- `workLoop()`, behind it, behind the exchange for `Stopped` with what that gave, in the inner loop,
-- or at its end.
pub data Thread : Type 0 where
  absent : Thread
  testing : Thread
  claiming : Thread
  working : Thread
  leaving : Thread
  exchanged : WorkerState → Thread
  resting : Thread
  ended : Thread

-- The call that runs and waits: in `startWorking()`, `stopWorking()` or the destructor.
pub data Call : Type 0 where
  no_call : Call
  in_start : Call
  in_stop : Call
  in_destructor : Call
  destroyed : Call

-- `m_work` is null just while the thread is `absent`.
pub record Worker : Type 0 where
  pub state : WorkerState
  pub thread : Thread
  pub call : Call

-- `Worker(_name)`
abbrev pub new_worker : Worker
new_worker = record { state = starting; thread = absent; call = no_call }

unfoldable pub has_work : Thread → Bool
has_work absent = false
has_work _ = true

-- `m_state.compare_exchange_strong(ex, next)`
unfoldable pub compare_exchange : WorkerState → WorkerState → WorkerState → WorkerState
unfolding same
compare_exchange ex next s = if same s ex then next else s

-- `startWorking()` up to its loop
unfoldable pub start_working : Worker → Worker
unfolding has_work compare_exchange
start_working w =
    if has_work w.thread
    then record w { state = compare_exchange stopped starting w.state; call = in_start }
    else record w { state = starting; thread = testing; call = in_start }

-- A round of the loop of `startWorking()`, which returns behind it
unfoldable pub start_wait : Worker → Worker
unfolding same
start_wait w = if same w.state starting then w else record w { call = no_call }

-- `stopWorking()` up to its loop
unfoldable pub stop_working : Worker → Worker
unfolding has_work compare_exchange
stop_working w =
    if has_work w.thread
    then record w { state = compare_exchange started stopping w.state; call = in_stop }
    else w

-- A round of the loop of `stopWorking()`, which returns behind it
unfoldable pub stop_wait : Worker → Worker
unfolding same
stop_wait w = if not (same w.state stopped) then w else record w { call = no_call }

-- `~Worker()` up to the join
unfoldable pub destroy : Worker → Worker
unfolding has_work
destroy w =
    if has_work w.thread
    then record w { state = killing; call = in_destructor }
    else record w { call = destroyed }

unfoldable pub has_ended : Thread → Bool
has_ended ended = true
has_ended _ = false

-- `m_work->join()` and `m_work.reset()`
unfoldable pub join : Worker → Worker
unfolding has_ended
join w = if has_ended w.thread then record w { thread = absent; call = destroyed } else w

-- The next access of the thread to `m_state`, and where it stands then. `workLoop()` returns, or throws
-- what is caught.
unfoldable pub advance : WorkerState → Thread → WorkerState × Thread
unfolding same compare_exchange
advance s absent = (s, absent)
advance s testing = (s, if not (same s killing) then claiming else ended)
advance s claiming = (compare_exchange starting started s, working)
advance s working = (s, leaving)
advance s leaving = (stopped, exchanged s)
advance s (exchanged ex) = (if same ex killing || same ex starting then ex else s, resting)
advance s resting = (s, if same s stopped then resting else testing)
advance s ended = (s, ended)

unfoldable pub thread_step : Worker → Worker
unfolding advance
thread_step w = let (s, t) = advance w.state w.thread in record w { state = s; thread = t }

-- `shouldStop()`
unfoldable pub should_stop : WorkerState → Bool
unfolding same
should_stop s = not (same s started)
