-- ===== src/Pool/Manager/Failover.antt =====
-- How the manager of libpoolprotocols/PoolManager.cpp turns from pool to pool.
use prog_po_w_miner.Common.{
  ℕ, zero, suc, ◌+◌, ◌-◌, ◌^◌, ◌%◌, ◌≤◌, ◌<◌, ◌≡◌, refl, [], ◌∷◌, ◌++◌, Bool, true, false, some,
  length, get_elem?, replicate, ltb, leb, ◌==◌, arith,
}
use prog_po_w_miner.Common.Result.{Result, ok, err, ◌>>=◌}
use prog_po_w_miner.Common.Text.{same_text}
use prog_po_w_miner.Mining.Farm
use prog_po_w_miner.Pool.Client.{PoolConnection, connect, set_connection, give}
use prog_po_w_miner.Pool.Manager.{
  Manager, ManagerError, active_connection, call_connect, next_active, turn_to, switch,
  try_reconnect,
}
use mathlib.Core.List.{append_assoc, append-nil}

-- `n` failed connections one after the other
unfoldable pub reconnects : ℕ → Bool → Manager → Result ManagerError Manager
reconnects zero connected m = ok m
reconnects (suc n) connected m = try_reconnect connected m >>= reconnects n connected

-- The manager after `n` more tries of the same pool.
unfoldable pub retried : ℕ → Manager → Manager
retried n m = record m {
  reconnect_try = m.reconnect_try + n;
  client = record m.client { given = m.client.given ++ replicate n connect };
}

-- The manager after it has turned to the pool `c` with the number `i`.
unfoldable pub turned : ℕ → PoolConnection → Manager → Manager
turned i c m = record m {
  reconnect_try = 0;
  active = i;
  client = record m.client {
    conn = c;
    connection_changed = true;
    given = m.client.given ++ (connect ∷ []);
  };
  farm = Farm.set_pool_addresses c.host c.port m.farm;
}

retry_lem :
    (n : ℕ) (connected : Bool) (m : Manager)
    → 2 ≤ length m.connections
    → m.reconnect_try + n ≤ m.reconnect_tries
    → m.reconnect_tries < 2 ^ 32
    → reconnects n connected m ≡ ok (retried n m)
unfolding reconnects retried try_reconnect call_connect give
retry_lem zero connected m many room bound =
    rw (append-nil) (let e : m.reconnect_try + 0 ≡ m.reconnect_try = omega arith in rw e refl)
retry_lem (suc n) connected m many room bound =
    rw (some_left, more, again, wrap, retry_lem n connected next many (omega arith) bound)
      (let e : m.reconnect_try + 1 + n ≡ m.reconnect_try + suc n = omega arith in
        rw (e, append_assoc m.client.given (connect ∷ []) (replicate n connect)) refl)
  where
    next : Manager
    next = record m {
      reconnect_try = m.reconnect_try + 1;
      client = record m.client { given = m.client.given ++ (connect ∷ []) };
    }

    some_left : leb (length m.connections) 0 ≡ false
    some_left = ground arith

    more : (length m.connections == 1) ≡ false
    more = ground arith

    again : ltb m.reconnect_try m.reconnect_tries ≡ true
    again = ground arith

    wrap : (m.reconnect_try + 1) % 2 ^ 32 ≡ m.reconnect_try + 1
    wrap = omega arith

found_lem :
    (c : PoolConnection) (m : Manager)
    → get_elem? m.connections m.active ≡ some c
    → active_connection m ≡ ok c
unfolding active_connection
found_lem c m there = rw (there, active_connection) refl

switch_lem :
    (connected : Bool) (c : PoolConnection) (m : Manager)
    → get_elem? m.connections (next_active m) ≡ some c
    → same_text c.host "exit" ≡ false
    → switch connected m ≡ ok (turned (next_active m) c m)
unfolding turned switch turn_to call_connect set_connection give
switch_lem connected c m there stay =
    rw (found_lem c (record m { reconnect_try = 0; active = next_active m }) there, stay) refl

turn_lem :
    (connected : Bool) (c : PoolConnection) (m : Manager)
    → 2 ≤ length m.connections
    → m.reconnect_tries ≤ m.reconnect_try
    → get_elem? m.connections (next_active m) ≡ some c
    → same_text c.host "exit" ≡ false
    → try_reconnect connected m ≡ ok (turned (next_active m) c m)
unfolding try_reconnect
turn_lem connected c m many over there stay =
    rw (some_left, more, enough) (switch_lem connected c m there stay)
  where
    some_left : leb (length m.connections) 0 ≡ false
    some_left = ground arith

    more : (length m.connections == 1) ≡ false
    more = ground arith

    enough : ltb m.reconnect_try m.reconnect_tries ≡ false
    enough = ground arith

bind_assoc :
    (r : Result ManagerError Manager) (f g : Manager → Result ManagerError Manager)
    → (r >>= (λ m. f m >>= g)) ≡ ((r >>= f) >>= g)
bind_assoc (ok m) f g = refl
bind_assoc (err e) f g = refl

bind_cong :
    (r : Result ManagerError Manager) (f g : Manager → Result ManagerError Manager)
    → ((m : Manager) → f m ≡ g m)
    → (r >>= f) ≡ (r >>= g)
bind_cong (ok m) f g h = h m
bind_cong (err e) f g h = refl

bind_ok : (r : Result ManagerError Manager) → (r >>= λ m. ok m) ≡ r
bind_ok (ok m) = refl
bind_ok (err e) = refl

pub reconnects-add :
    (n k : ℕ) (connected : Bool) (m : Manager)
    → reconnects (n + k) connected m ≡ (reconnects n connected m >>= reconnects k connected)
unfolding reconnects
reconnects-add zero k connected m = let e : 0 + k ≡ k = omega arith in rw e refl
reconnects-add (suc n) k connected m =
    let e : suc n + k ≡ suc (n + k) = omega arith in
    rw
      (
        e,
        ← bind_assoc (try_reconnect connected m) (reconnects n connected) (reconnects k connected),
      )
      (bind_cong (try_reconnect connected m) _ _ (λ m'. reconnects-add n k connected m'))

reconnects-one :
    (connected : Bool) (m : Manager) → reconnects 1 connected m ≡ try_reconnect connected m
unfolding reconnects
reconnects-one connected m = bind_ok (try_reconnect connected m)

-- When a pool was tried as often as allowed and fails once more, the manager turns to the next one;
-- every failure leads to a call of `connect`, and at the turn the client is given the connection.
pub reconnects-turned :
    (connected : Bool) (c : PoolConnection) (m : Manager)
    → 2 ≤ length m.connections
    → m.reconnect_try ≤ m.reconnect_tries
    → m.reconnect_tries < 2 ^ 32
    → get_elem? m.connections (next_active m) ≡ some c
    → same_text c.host "exit" ≡ false
    → reconnects (m.reconnect_tries - m.reconnect_try + 1) connected m
      ≡ ok (turned (next_active m) c (retried (m.reconnect_tries - m.reconnect_try) m))
unfolding next_active retried
reconnects-turned connected c m many room bound there stay =
    rw
      (
        reconnects-add left 1 connected m,
        retry_lem left connected m many (omega arith) bound,
        reconnects-one connected (retried left m),
        turn_lem connected c (retried left m) many (omega arith) there stay,
      )
      refl
  where
    left : ℕ
    left = m.reconnect_tries - m.reconnect_try
