-- ===== src/Pool/Client.antt =====
-- libpoolprotocols/PoolClient.h and PoolURI.h: a connection to a pool, and the client of a pool as the
-- manager sees it. The calls of its virtual functions are the commands; what it answers comes back
-- by the handlers of the manager.
use prog_po_w_miner.Common.{ℕ, List, [], ◌∷◌, ◌++◌, Bool, true, false}
use prog_po_w_miner.Mining.Work.{Solution}
use Prim.Native.String.{String}

pub data SecureLevel : Type 0 where
  none tls12 tls allow_selfsigned : SecureLevel

-- Without the address, which a client sets when the host is resolved.
pub record PoolConnection : Type 0 where
  pub host : String
  pub port : ℕ
  pub user : String
  pub pass : String
  pub sec_level : SecureLevel
  pub version : ℕ
  pub path : String

-- `PoolConnection()`
abbrev pub no_connection : PoolConnection
no_connection = record {
  host = "";
  port = 0;
  user = "";
  pass = "";
  sec_level = none;
  version = 0;
  path = "";
}

-- The rate is the text of a number in hexadecimal digits.
pub data Command : Type 0 where
  connect : Command
  disconnect : Command
  submit_hashrate : List ℕ → Command
  submit_solution : Solution → Command

-- `m_conn` and `m_connection_changed` of the client, and the commands that it was given, in order.
pub record PoolClient : Type 0 where
  pub conn : PoolConnection
  pub connection_changed : Bool
  pub given : List Command

-- `PoolClient()`
abbrev pub new_client : PoolClient
new_client = record { conn = no_connection; connection_changed = false; given = [] }

-- `setConnection(conn)`
unfoldable pub set_connection : PoolConnection → PoolClient → PoolClient
set_connection c p = record p { conn = c; connection_changed = true }

unfoldable pub give : Command → PoolClient → PoolClient
give c p = record p { given = p.given ++ (c ∷ []) }
