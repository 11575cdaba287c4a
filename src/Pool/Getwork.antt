-- ===== src/Pool/Getwork.antt =====
-- libpoolprotocols/getwork/EthGetworkClient.{h,cpp}: the client of a node that is asked for work again and
-- again. What the node answers to a call, or that the call failed, is an argument; the epoch of a
-- seed hash (`EthashAux::toEpoch`) is the parameter `to_epoch`, with `none` for a seed that it refuses.
pub mod Rounds
mod Runs
use prog_po_w_miner.Common.{
  ℕ, ◌+◌, List, [], ◌∷◌, ◌++◌, Bool, true, false, not, ◌&&◌, ◌||◌, Option, none, some, length,
  get_or, ◌==◌, if◌then◌else◌,
}
use prog_po_w_miner.Common.Integers.{ℤ}
use prog_po_w_miner.Common.Result.{Result, ok, err, ◌>>=◌}
use prog_po_w_miner.DevCore.Endian.{from_big_endian}
use prog_po_w_miner.DevCore.Hex.{from_hex, dont_throw}
use prog_po_w_miner.Mining.Work.{WorkPackage, no_work, Solution}
use prog_po_w_miner.Pool.Client.{PoolConnection, no_connection}
use prog_po_w_miner.Pool.Stratum.State.{Element, StratumError, hash_of}

-- What the client asks of the node, and the handlers that it calls.
pub data Action : Type 0 where
  open_node : PoolConnection → Action
  submit_work : Solution → Action
  get_work : Action
  report_hashrate : List ℕ → Action
  handler_connected : Action
  handler_disconnected : Action
  handler_work : WorkPackage → Action
  handler_accepted : Bool → Action
  handler_rejected : Bool → Action

pub record Getwork : Type 0 where
  pub conn : PoolConnection
  pub connection_changed : Bool
  pub connected : Bool
  pub just_connected : Bool
  pub client_id : ℕ
  pub hashrate_to_submit : List ℕ
  pub solution_to_submit : Solution
  pub prev_work : WorkPackage
  pub actions : List Action

-- A text that is no hash, or a seed hash of no epoch, ends the loop by its exception.
pub data GetworkError : Type 0 where
  bad_hash : StratumError → GetworkError
  bad_seed : GetworkError

abbrev no_solution : Solution
no_solution = record { nonce = 0; mix_hash = 0; work = no_work; stale = false }

-- `EthGetworkClient(farmRecheckPeriod)`
abbrev pub new_getwork : Getwork
new_getwork = record {
  conn = no_connection;
  connection_changed = true;
  connected = false;
  just_connected = false;
  client_id = 0;
  hashrate_to_submit = [];
  solution_to_submit = no_solution;
  prev_work = no_work;
  actions = [];
}

unfoldable pub act : Action → Getwork → Getwork
act a g = record g { actions = g.actions ++ (a ∷ []) }

-- `connect()` with the drawn identity
unfoldable pub connect : ℕ → Getwork → Getwork
connect id g =
    let g = if g.connection_changed then act (open_node g.conn) g else g in
    record g { client_id = id; connection_changed = false; just_connected = true }

-- `disconnect()`
unfoldable pub disconnect : Getwork → Getwork
disconnect g = act handler_disconnected (record g { connected = false; just_connected = false })

-- `submitHashrate(rate)` and `submitSolution(solution)`
unfoldable pub submit_hashrate : List ℕ → Getwork → Getwork
submit_hashrate rate g = record g { hashrate_to_submit = rate }

unfoldable pub submit_solution : Solution → Getwork → Getwork
submit_solution sol g = record g { solution_to_submit = sol }

-- A node that has answered is given no solution again; after a failed call it is.
unfoldable pub solution_answered : Option Bool → Getwork → Getwork
solution_answered none g = g
solution_answered (some accepted) g =
    let g = if accepted then act (handler_accepted false) g else act (handler_rejected false) g in
    record g { solution_to_submit = record g.solution_to_submit { nonce = 0 } }

-- "Submit solution"
unfoldable pub submit_pending : Option Bool → Getwork → Getwork
submit_pending answer g =
    if not (g.solution_to_submit.nonce == 0)
    then solution_answered answer (act (submit_work g.solution_to_submit) g)
    else g

-- The first answer shows that the connection works.
unfoldable pub note_connected : Getwork → Getwork
note_connected g =
    if g.just_connected
    then act handler_connected (record g { just_connected = false; connected = true })
    else g

-- The bytes of a boundary stand at the right end of a hash; bad characters are passed over.
unfoldable pub boundary_of : List ℕ → ℕ
boundary_of s = elim (from_hex s dont_throw) [ ok bs ↦ from_big_endian 256 bs | err e ↦ 0 ]

abbrev pub text_at : List Element → ℕ → List ℕ
text_at es i = (get_or es i (record { as_text = []; as_int = 0; as_boundary = 0 })).as_text

abbrev pub int_at : List Element → ℕ → ℕ
int_at es i = (get_or es i (record { as_text = []; as_int = 0; as_boundary = 0 })).as_int

unfoldable pub parsed : List ℕ → Result GetworkError ℕ
parsed s = elim (hash_of 32 s) [ ok h ↦ ok h | err e ↦ err (bad_hash e) ]

-- Only a new header makes a new work package.
unfoldable pub note_work : ℕ → ℤ → List Element → Getwork → Getwork
note_work header epoch es g =
    if not (header == g.prev_work.header)
    then (let w = record g.prev_work {
      header = header;
      epoch = epoch;
      height = int_at es 3;
      boundary = boundary_of (text_at es 2);
    } in
        act (handler_work w) (record g { prev_work = w }))
    else g

-- "Submit current hashrate if needed", whatever comes of the call
unfoldable pub report_pending : Getwork → Getwork
report_pending g =
    if not (length g.hashrate_to_submit == 0)
    then record (act (report_hashrate g.hashrate_to_submit) g) { hashrate_to_submit = [] }
    else g

module _ (to_epoch : ℕ → Option ℤ) where
  -- "Get Work", with the members of the answer
  unfoldable pub fetch : Option (List Element) → Getwork → Result GetworkError Getwork
  fetch none g = ok (disconnect (act get_work g))
  fetch (some es) g = parsed (text_at es 0) >>= λ header. parsed (text_at es 1) >>= λ seed.
      elim (to_epoch seed) [
        | none ↦ err bad_seed
        | some epoch ↦ ok (note_work header epoch es (note_connected (act get_work g)))
      ]

  -- One round of `workLoop()`, without its pause
  unfoldable pub work_loop_round :
      Option Bool → Option (List Element) → Getwork → Result GetworkError Getwork
  work_loop_round answer work g =
      if g.connected || g.just_connected
      then (fetch work (submit_pending answer g) >>= λ g. ok (report_pending g))
      else ok g
