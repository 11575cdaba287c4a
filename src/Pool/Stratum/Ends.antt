-- ===== src/Pool/Stratum/Ends.antt =====
-- What libpoolprotocols/stratum/EthStratumClient.cpp leaves when a connection ends, and what of a job.
use prog_po_w_miner.Common.{
  ℕ, ◌+◌, ◌<◌, ◌≡◌, refl, List, [], ◌∷◌, ◌++◌, Bool, true, false, not, ◌&&◌, ◌||◌, length, ltb,
  arith, if◌then◌else◌, if_elim,
}
use prog_po_w_miner.Common.Integers.{ℤ}
use prog_po_w_miner.Common.Result.{Result, ok, err}
use prog_po_w_miner.Pool.Stratum.State.{
  Client, close, handler_disconnected, Element, StratumError, no_socket, out_of_range, act,
}
use prog_po_w_miner.Pool.Stratum.Session.{is_secure, disconnect}
use prog_po_w_miner.Pool.Stratum.Replies.{notify_long, share_target, member}

-- What `disconnect` leaves: no connection, no timer, and the handler called once.
pub record Ended (c d : Client) : Type 0 where
  connected : d.connected ≡ false
  authorized : d.authorized ≡ false
  down : d.linkdown ≡ true
  no_work_timer : d.work_timer ≡ false
  no_response_timer : d.response_timer ≡ false
  not_pending : d.response_pending ≡ false
  told : d.actions ≡ (c.actions ++ (close ∷ [])) ++ (handler_disconnected ∷ [])

-- A result is `P`, or an exception.
Gives : (Client → Type 0) → Result StratumError Client → Type 0
Gives P (ok c) = P c
Gives P (err e) = Unit {0}

-- After `disconnect` the client is not connected, no timer for work or for an answer runs and the handler
-- was called once; a second call before the next `connect` uses a socket that is not there.
disconnect-twice : (c d : Client) → disconnect c ≡ ok d → Ended c d × (disconnect d ≡ err no_socket)
unfolding disconnect act Gives
disconnect-twice c d e = rw e at (checked)
  where
    gone :
        (secure socket : Bool)
        → (not (if secure then socket else false)
            || (secure && not (if secure then false else c.secure_socket)))
          ≡ true
    gone true true = refl
    gone true false = refl
    gone false socket = refl

    checked : Gives (λ d. Ended c d × (disconnect d ≡ err no_socket)) (disconnect c)
    checked =
        if_elim (Gives (λ d. Ended c d × (disconnect d ≡ err no_socket)))
          (not c.socket || (is_secure c.connection && not c.secure_socket)) tt
          (
            record {
              connected = refl;
              authorized = refl;
              down = refl;
              no_work_timer = refl;
              no_response_timer = refl;
              not_pending = refl;
              told = refl;
            },
            rw (gone (is_secure c.connection) c.socket) refl,
          )

-- A job of Stratum or EthProxy whose share target has less than two characters, or is missing, ends in
-- an exception, before anything else of the job is looked at.
notify_long-short_target :
    (to_epoch : ℕ → ℤ) (i : ℕ) (ps : List Element) (c : Client)
    → length ((member ps (i + 2)).as_text) < 2
    → notify_long to_epoch i ps c ≡ err out_of_range
unfolding notify_long share_target
notify_long-short_target to_epoch i ps c h = rw (below, short) refl
  where
    below : not (ltb (length ((member ps (i + 2)).as_text)) 66) ≡ false
    below = ground arith

    short : ltb (length ((member ps (i + 2)).as_text)) 2 ≡ true
    short = ground arith
