-- ===== src/Pool/Stratum/Steps.antt =====
-- The life of the client of libpoolprotocols/stratum/EthStratumClient.cpp: its calls and handlers in any
-- order, and what holds between them.
pub mod Safety
use prog_po_w_miner.Common.{
  ℕ, zero, suc, ◌+◌, ◌-◌, ◌≤◌, ◌≡◌, refl, sym, ap, ◌∙◌, List, [], ◌∷◌, Bool, true, false, not, ◌&&◌,
  ◌||◌, Option, none, some, length, ltb, ◌==◌, if◌then◌else◌, if_elim, Bool-cases, inl, inr, arith,
}
use prog_po_w_miner.Common.Integers.{ℤ}
use prog_po_w_miner.Common.Result.{Result, ok, err, ◌>>=◌}
use prog_po_w_miner.Common.Text.{same_text}
use prog_po_w_miner.Mining.Work.{Solution}
use prog_po_w_miner.Pool.Stratum.State.{
  Client, Element, Reply, Request, StratumError, act, hash_of, stratum, ethproxy, ethereum_stratum,
}
use prog_po_w_miner.Pool.Stratum.Session.{
  is_secure, connect, disconnect, resolve_handler, reset_work_timeout, send, greet, connect_handler,
  readline, handle_response, work_timeout_handler, response_timeout_handler, hashrate_event_handler,
  submit_hashrate, solution_line, submit_solution,
}
use prog_po_w_miner.Pool.Stratum.Replies.{
  process_extranonce, share_target, notify_short, notify_long, notify, set_difficulty,
  set_extranonce, process_method, process_subscribed, process_submitted, process_response,
  read_response, member,
}

-- Calls that do not give a client have no step.
pub data Step (to_epoch : ℕ → ℤ) : Client → Client → Type 0 where
  connecting : {c : Client} → Step to_epoch c (connect c)
  disconnecting : {c d : Client} → disconnect c ≡ ok d → Step to_epoch c d
  resolved : (ec : Bool) {c d : Client} → resolve_handler ec c ≡ ok d → Step to_epoch c d
  answered : (ec hec : Bool) {c d : Client} → connect_handler ec hec c ≡ ok d → Step to_epoch c d
  written : (ec : Bool) {c : Client} → Step to_epoch c (handle_response ec c)
  read :
      (ec bytes : Bool) (line : Option Reply) {c d : Client}
      → read_response to_epoch ec bytes line c ≡ ok d
      → Step to_epoch c d
  work_timed_out : (ec : Bool) {c d : Client} → work_timeout_handler ec c ≡ ok d → Step to_epoch c d
  response_timed_out : {c d : Client} → response_timeout_handler false c ≡ ok d → Step to_epoch c d
  rate_due : (ec : Bool) {c d : Client} → hashrate_event_handler ec c ≡ ok d → Step to_epoch c d
  rate_given : (rate : List ℕ) {c : Client} → Step to_epoch c (submit_hashrate rate c)
  solution_given :
      (sol : Solution) {c d : Client} → submit_solution sol c ≡ ok d → Step to_epoch c d

pub data Run (to_epoch : ℕ → ℤ) : Client → Client → Type 0 where
  done : {c : Client} → Run to_epoch c c
  next : {c d e : Client} → Run to_epoch c d → Step to_epoch d e → Run to_epoch c e

-- At most one line is being read, and a solution is being answered just while the timer for its answer
-- is armed.
pub record IsValid (c : Client) : Type 0 where
  pub one_read : c.pending ≤ 1
  pub timed : c.response_timer ≡ c.response_pending

-- A result is `P`, or an exception.
abbrev Gives : (Client → Type 0) → Result StratumError Client → Type 0
Gives P (ok c) = P c
Gives P (err e) = Unit {0}

Gives-next :
    (Q P : Client → Type 0) (r : Result StratumError Client)
    (f : Client → Result StratumError Client)
    → Gives Q r
    → ((c : Client) → Q c → Gives P (f c))
    → Gives P (r >>= f)
Gives-next Q P (ok c) f q h = h c q
Gives-next Q P (err e) f q h = tt

Gives-any :
    {A : Type 0} (P : Client → Type 0) (r : Result StratumError A)
    (f : A → Result StratumError Client)
    → ((a : A) → Gives P (f a))
    → Gives P (r >>= f)
Gives-any P (ok a) f h = h a
Gives-any P (err e) f h = tt

-- Validity reads three fields.
same-IsValid :
    (c d : Client)
    → d.pending ≡ c.pending
    → d.response_timer ≡ c.response_timer
    → d.response_pending ≡ c.response_pending
    → IsValid c
    → IsValid d
same-IsValid c d p t r v = record {
  one_read = omega (arith, v.one_read);
  timed = t ∙ v.timed ∙ sym r;
}

send-IsValid : (r : Request) (c : Client) → IsValid c → Gives IsValid (send r c)
unfolding send act
send-IsValid r c v =
    if_elim (Gives IsValid) (if is_secure c.connection then c.secure_socket else c.nonsecure_socket)
      (same-IsValid c _ refl refl refl v) tt

disconnect-IsValid : (c : Client) → c.pending ≤ 1 → Gives IsValid (disconnect c)
unfolding disconnect act
disconnect-IsValid c h =
    if_elim (Gives IsValid) (not c.socket || (is_secure c.connection && not c.secure_socket)) tt
      (record { one_read = h; timed = refl })

readline-IsValid : (c : Client) → IsValid c → IsValid (readline c)
unfolding readline act
readline-IsValid c v = elim (Bool-cases (c.pending == 0)) [
  | inl none_yet ↦ rw none_yet (record { one_read = ground (arith, none_yet); timed = v.timed })
  | inr one ↦ rw one v
]

greet-IsValid : (c : Client) → IsValid c → Gives IsValid (greet c)
unfolding greet
greet-IsValid c v =
    if_elim (Gives IsValid) (c.connection.version == stratum)
      (send-IsValid _ _ (same-IsValid c _ refl refl refl v))
      (if_elim (Gives IsValid) (c.connection.version == ethproxy)
        (send-IsValid _ _ (same-IsValid c _ refl refl refl v))
        (if_elim (Gives IsValid) (c.connection.version == ethereum_stratum)
          (send-IsValid _ _ (same-IsValid c _ refl refl refl v)) (send-IsValid _ c v)))

connect_handler-IsValid :
    (ec hec : Bool) (c : Client) → IsValid c → Gives IsValid (connect_handler ec hec c)
unfolding connect_handler act reset_work_timeout
connect_handler-IsValid ec hec c v =
    if_elim (Gives IsValid) (not ec)
      (if_elim (Gives IsValid) (is_secure c.connection && hec) (disconnect-IsValid _ v.one_read)
        (greet-IsValid _ (same-IsValid c _ refl refl refl v)))
      (disconnect-IsValid c v.one_read)
