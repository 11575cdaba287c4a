-- ===== src/Pool/Stratum/State.antt =====
-- The state of `EthStratumClient` (libpoolprotocols/stratum/EthStratumClient.h), the requests that it
-- writes and the replies as its JSON library (JsonCpp) reads them.
use prog_po_w_miner.Common.{ℕ, ◌*◌, List, [], ◌∷◌, ◌++◌, Bool, Option, ◌==◌, if◌then◌else◌, length}
use prog_po_w_miner.Common.Result.{Result, ok, err}
use prog_po_w_miner.DevCore.Endian.{from_big_endian}
use prog_po_w_miner.DevCore.Hex.{from_hex, throw, HexError}
use prog_po_w_miner.Mining.Work.{WorkPackage}
use prog_po_w_miner.Pool.Client.{PoolConnection}
use Prim.Native.String.{String}

-- `StratumProtocol`, the version of a connection
abbrev pub stratum : ℕ
stratum = 0

abbrev pub ethproxy : ℕ
ethproxy = 1

abbrev pub ethereum_stratum : ℕ
ethereum_stratum = 2

-- The lines that the client writes, with the parts that are not fixed.
pub data Request : Type 0 where
  subscribe : Request
  subscribe_version : Request
  submit_login : (worker user email : String) → Request
  extranonce_subscribe : Request
  authorize : (user pass : String) → Request
  get_work : Request
  submit : (user : String) (job nonce header mix_hash : ℕ) → Request
  submit_work : (worker : String) (nonce header mix_hash : ℕ) → Request
  submit_short : (user : String) (job nonce : List ℕ) → Request
  report_hashrate : (rate : List ℕ) → Request
  version_reply : ℕ → Request
  no_line : Request

-- What the client asks of the outside, and the handlers that it calls.
pub data Action : Type 0 where
  resolve : Action
  start_connect : Action
  write : Request → Action
  read_line : Action
  close : Action
  handler_connected : Action
  handler_disconnected : Action
  handler_work : WorkPackage → Action
  handler_accepted : Bool → Action
  handler_rejected : Bool → Action

-- A timer is armed or not. The thread and the buffers have no field; of the sockets it is kept
-- whether the pointer is set.
pub record Client : Type 0 where
  pub conn : PoolConnection
  pub connection : PoolConnection
  pub worker : String
  pub email : String
  pub authorized : Bool
  pub connected : Bool
  pub linkdown : Bool
  pub socket : Bool
  pub secure_socket : Bool
  pub nonsecure_socket : Bool
  pub pending : ℕ
  pub current : WorkPackage
  pub stale : Bool
  pub response_pending : Bool
  pub work_timer : Bool
  pub response_timer : Bool
  pub hashrate_timer : Bool
  pub rate : List ℕ
  pub extra_nonce : ℕ
  pub extra_nonce_hex_size : ℕ
  pub next_boundary : ℕ
  pub submits_hashrate : Bool
  pub actions : List Action

-- A member of an array of a reply: its text, and what it is read as when a number is asked for. As a
-- difficulty it is read as the boundary that `diffToTarget` makes of it in floating point.
pub record Element : Type 0 where
  pub as_text : List ℕ
  pub as_int : ℕ
  pub as_boundary : ℕ

-- A reply: its parts under the keys that the client asks for.
pub record Reply : Type 0 where
  pub id : ℕ
  pub result : Option (List Element)
  pub result_true : Bool
  pub method : String
  pub params : Option (List Element)

-- A byte that is no digit is thrown, or a text is cut behind its end (`std::out_of_range`); a socket that
-- is not there is used.
pub data StratumError : Type 0 where
  bad_hex : HexError → StratumError
  out_of_range no_socket : StratumError

-- `FixedHash<_N>(std::string)`: another number of bytes gives the empty hash.
unfoldable pub hash_of_bytes : ℕ → List ℕ → ℕ
hash_of_bytes n bs = if length bs == n then from_big_endian (8 * n) bs else 0

unfoldable pub hash_of : ℕ → List ℕ → Result StratumError ℕ
hash_of n s = elim (from_hex s throw) [ ok bs ↦ ok (hash_of_bytes n bs) | err e ↦ err (bad_hex e) ]

unfoldable pub act : Action → Client → Client
act a c = record c { actions = c.actions ++ (a ∷ []) }
