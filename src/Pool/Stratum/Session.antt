-- ===== src/Pool/Stratum/Session.antt =====
-- libpoolprotocols/stratum/EthStratumClient.cpp: connecting, disconnecting, reading and writing.
use prog_po_w_miner.Common.{
  ℕ, ◌+◌, ◌-◌, List, Bool, true, false, not, ◌&&◌, ◌||◌, take, drop, leb, ◌==◌, if◌then◌else◌,
}
use prog_po_w_miner.Common.Result.{Result, ok, err, ◌>>=◌}
use prog_po_w_miner.DevCore.Endian.{to_big_endian}
use prog_po_w_miner.DevCore.Hex.{to_hex, dont_add}
use prog_po_w_miner.Mining.Work.{Solution}
use prog_po_w_miner.Pool.Client.{PoolConnection, SecureLevel}
use prog_po_w_miner.Pool.Client
use prog_po_w_miner.Pool.Stratum.State.{
  stratum, ethproxy, ethereum_stratum, Request, subscribe, subscribe_version, submit_login, submit,
  submit_work, submit_short, report_hashrate, no_line, resolve, start_connect, write, read_line,
  close, handler_connected, handler_disconnected, Client, StratumError, no_socket, act,
}
use Prim.Native.String.{String}
use Prim.Native.String

unfoldable pub is_secure : PoolConnection → Bool
is_secure c = elim c.sec_level [
  | Client.none ↦ false
  | Client.tls12 ↦ true
  | Client.tls ↦ true
  | Client.allow_selfsigned ↦ true
]

-- `connect()`; the certificates are the outside's.
unfoldable pub connect : Client → Client
connect c = act resolve (record c {
  connection = c.conn;
  authorized = false;
  connected = false;
  socket = true;
  secure_socket = if is_secure c.conn then true else c.secure_socket;
  nonsecure_socket = if is_secure c.conn then c.nonsecure_socket else true;
})

-- `disconnect()`, which uses the sockets of the connection.
unfoldable pub disconnect : Client → Result StratumError Client
disconnect c =
    let secure = is_secure c.connection in
    if not c.socket || (secure && not c.secure_socket)
    then err no_socket
    else ok (
        act handler_disconnected (
          act close (record c {
            work_timer = false;
            response_timer = false;
            response_pending = false;
            linkdown = true;
            secure_socket = if secure then false else c.secure_socket;
            socket = if secure then c.socket else false;
            authorized = false;
            connected = false;
          })))

-- `resolve_handler(ec)`
unfoldable pub resolve_handler : Bool → Client → Result StratumError Client
resolve_handler ec c = if not ec then ok (act start_connect c) else disconnect c

-- `reset_work_timeout()`
unfoldable pub reset_work_timeout : Client → Client
reset_work_timeout c = record c { work_timer = true }

-- The part of a login behind its first ".". Without one the position is the greatest number, and the
-- next one is 0.
unfoldable pub worker_of : String → String
worker_of u =
    let p = String.find u "." in
    if leb (String.len u) p then u else String.slice u (p + 1) (String.len u)

unfoldable pub user_of : String → String
user_of u = String.slice u 0 (String.find u ".")

-- A line is written, with a read of the answer behind it (`async_write_with_response`) or without.
unfoldable pub send : Request → Client → Result StratumError Client
send r c =
    if (if is_secure c.connection then c.secure_socket else c.nonsecure_socket)
    then ok (act (write r) c)
    else err no_socket

-- The first request of a connection, by its version; an empty one for other versions.
unfoldable pub greet : Client → Result StratumError Client
greet c =
    let v = c.connection.version in
    if v == stratum
    then send subscribe (record c { authorized = true })
    else if v == ethproxy
    then (let u = c.connection.user in
        send (submit_login (worker_of u) (user_of u) c.email) (record c { worker = worker_of u }))
    else if v == ethereum_stratum
    then send subscribe_version (record c { authorized = true })
    else send no_line c

-- `connect_handler(ec)`, with the outcome of the handshake of a secure connection
unfoldable pub connect_handler : (ec hec : Bool) → Client → Result StratumError Client
connect_handler ec hec c =
    if not ec
    then (let c = act handler_connected (record c { connected = true; linkdown = false }) in
        if is_secure c.connection && hec then disconnect c else greet (reset_work_timeout c))
    else disconnect c

-- `readline()`
unfoldable pub readline : Client → Client
readline c = if c.pending == 0 then act read_line (record c { pending = c.pending + 1 }) else c

-- `handleResponse(ec)`
unfoldable pub handle_response : Bool → Client → Client
handle_response ec c = if not ec then readline c else c

-- The handlers of the timers
unfoldable pub work_timeout_handler : Bool → Client → Result StratumError Client
work_timeout_handler ec c = if not ec then disconnect (record c { work_timer = false }) else ok c

unfoldable pub response_timeout_handler : Bool → Client → Result StratumError Client
response_timeout_handler ec c =
    if not ec then disconnect (record c { response_timer = false }) else ok c

unfoldable pub hashrate_event_handler : Bool → Client → Result StratumError Client
hashrate_event_handler ec c =
    let c = record c { hashrate_timer = false } in
    if ec || c.linkdown then ok c else send (report_hashrate c.rate) c

-- `submitHashrate(rate)`
unfoldable pub submit_hashrate : List ℕ → Client → Client
submit_hashrate rate c =
    if not c.submits_hashrate || c.linkdown
    then c
    else record c { rate = rate; hashrate_timer = true }

-- The digits of a number of `n` bytes.
unfoldable pub digits : ℕ → ℕ → List ℕ
digits n x = to_hex (to_big_endian n x) 2 dont_add

-- The line of a solution, by the version; an empty one for other versions.
unfoldable pub solution_line : Solution → Client → Request
solution_line sol c =
    let v = c.connection.version in
    let w = sol.work in
    if v == stratum
    then submit c.connection.user w.job sol.nonce w.header sol.mix_hash
    else if v == ethproxy
    then submit_work c.worker sol.nonce w.header sol.mix_hash
    else if v == ethereum_stratum
    then submit_short c.connection.user (take w.job_len (digits 32 w.job))
        (take (16 - c.extra_nonce_hex_size) (drop c.extra_nonce_hex_size (digits 8 sol.nonce)))
    else no_line

-- `submitSolution(solution)`
unfoldable pub submit_solution : Solution → Client → Result StratumError Client
submit_solution sol c = send (solution_line sol c) (record c { stale = sol.stale }) >>= λ c.
    ok (record c { response_pending = true; response_timer = true })
