-- ===== src/Pool/Stratum/Steps/Safety.antt =====
-- Every step of the client of libpoolprotocols/stratum/EthStratumClient.cpp keeps it valid.
use prog_po_w_miner.Common.{
  ℕ, ◌+◌, ◌-◌, ◌≤◌, ◌≡◌, refl, List, Bool, true, false, not, ◌&&◌, ◌||◌, Option, none, some, length,
  ltb, ◌==◌, if◌then◌else◌, if_elim, arith,
}
use prog_po_w_miner.Common.Integers.{ℤ}
use prog_po_w_miner.Common.Result.{Result, ok}
use prog_po_w_miner.Common.Text.{same_text}
use prog_po_w_miner.Pool.Stratum.State.{
  Client, Element, Reply, StratumError, act, hash_of, ethproxy, ethereum_stratum,
}
use prog_po_w_miner.Pool.Stratum.Session.{
  connect, resolve_handler, reset_work_timeout, send, handle_response, work_timeout_handler,
  response_timeout_handler, hashrate_event_handler, submit_hashrate, solution_line, submit_solution,
}
use prog_po_w_miner.Pool.Stratum.Replies.{
  padded, resized, process_extranonce, share_target, notify_short, notify_long, notify,
  set_difficulty, set_extranonce, process_method, process_subscribed, process_submitted,
  process_response, read_response, member,
}
use prog_po_w_miner.Pool.Stratum.Steps.{
  Step, connecting, disconnecting, resolved, answered, written, read, work_timed_out,
  response_timed_out, rate_due, rate_given, solution_given, Run, done, next, IsValid, Gives,
  Gives-next, Gives-any, same-IsValid, send-IsValid, disconnect-IsValid, readline-IsValid,
  connect_handler-IsValid,
}

process_extranonce-IsValid :
    (e : List ℕ) (c : Client) → IsValid c → Gives IsValid (process_extranonce e c)
unfolding process_extranonce
process_extranonce-IsValid e c v =
    Gives-any IsValid (hash_of 8 (padded 16 e)) _ (λ n. same-IsValid c _ refl refl refl v)

module _ (to_epoch : ℕ → ℤ) where
  notify_short-IsValid :
      (ps : List Element) (c : Client) → IsValid c → Gives IsValid (notify_short to_epoch ps c)
  unfolding notify_short act reset_work_timeout
  notify_short-IsValid ps c v =
      if_elim (Gives IsValid)
        (length ((member ps 2).as_text) == 0 || length ((member ps 1).as_text) == 0) v
        (Gives-any IsValid (hash_of 32 ((member ps 2).as_text)) _ (λ h.
          Gives-any IsValid (hash_of 32 ((member ps 1).as_text)) _ (λ s.
            Gives-any IsValid (hash_of 32 (resized 64 ((member ps 0).as_text))) _
              (λ j. same-IsValid c _ refl refl refl v))))

  notify_long-IsValid :
      (i : ℕ) (ps : List Element) (c : Client)
      → IsValid c
      → Gives IsValid (notify_long to_epoch i ps c)
  unfolding notify_long act reset_work_timeout
  notify_long-IsValid i ps c v =
      Gives-any IsValid (share_target ((member ps (i + 2)).as_text)) _ (λ target.
        if_elim (Gives IsValid)
          (length ((member ps i).as_text) == 0
            || length ((member ps (i + 1)).as_text) == 0
            || length target == 0)
          v
          (Gives-any IsValid (hash_of 32 ((member ps i).as_text)) _ (λ h.
            if_elim (Gives IsValid) (h == c.current.header) v (
              Gives-any IsValid (hash_of 32 ((member ps (i + 1)).as_text)) _ (λ s.
                Gives-any IsValid (hash_of 32 target) _ (λ b.
                  Gives-any IsValid (hash_of 32 ((member ps 0).as_text)) _
                    (λ j. same-IsValid c _ refl refl refl v)))))))

  notify-IsValid :
      (ps : Option (List Element)) (c : Client) → IsValid c → Gives IsValid (notify to_epoch ps c)
  unfolding notify
  notify-IsValid none c v = v
  notify-IsValid (some ps) c v =
      let w =
        if_elim IsValid c.response_pending
          (same-IsValid c (record c { stale = true }) refl refl refl v) v in
      if_elim (Gives IsValid) _ (notify_short-IsValid ps _ w) (notify_long-IsValid _ ps _ w)

  set_extranonce-IsValid :
      (i : ℕ) (ps : Option (List Element)) (c : Client)
      → IsValid c
      → Gives IsValid (set_extranonce to_epoch i ps c)
  unfolding set_extranonce
  set_extranonce-IsValid i none c v = v
  set_extranonce-IsValid i (some ps) c v = process_extranonce-IsValid _ c v

  set_difficulty-IsValid :
      (ps : Option (List Element)) (c : Client) → IsValid c → IsValid (set_difficulty to_epoch ps c)
  unfolding set_difficulty
  set_difficulty-IsValid none c v = v
  set_difficulty-IsValid (some ps) c v = same-IsValid c _ refl refl refl v

  process_method-IsValid :
      (r : Reply) (c : Client) → IsValid c → Gives IsValid (process_method to_epoch r c)
  unfolding process_method
  process_method-IsValid r c v =
      if_elim (Gives IsValid) (c.connection.version == ethproxy) (notify-IsValid r.result c v) (
        if_elim (Gives IsValid) (same_text r.method "mining.notify") (notify-IsValid r.params c v) (
          if_elim (Gives IsValid) (same_text r.method "mining.set_difficulty" && _)
            (set_difficulty-IsValid r.params c v)
            (if_elim (Gives IsValid) (same_text r.method "mining.set_extranonce" && _)
              (set_extranonce-IsValid 0 r.params c v)
              (if_elim (Gives IsValid) (same_text r.method "client.get_version")
                (send-IsValid _ c v) v))))

  process_subscribed-IsValid :
      (r : Reply) (c : Client) → IsValid c → Gives IsValid (process_subscribed to_epoch r c)
  unfolding process_subscribed
  process_subscribed-IsValid r c v =
      if_elim (Gives IsValid) (c.connection.version == ethereum_stratum)
        (Gives-next IsValid IsValid _ _
          (set_extranonce-IsValid 1 r.result _ (same-IsValid c _ refl refl refl v))
          (λ d w. Gives-next IsValid IsValid _ _ (send-IsValid _ d w) (λ e u. send-IsValid _ e u)))
        (if_elim (Gives IsValid) (c.connection.version == ethproxy)
          (send-IsValid _ _ (same-IsValid c _ refl refl refl v)) (send-IsValid _ c v))

  process_submitted-IsValid :
      (r : Reply) (c : Client) → IsValid c → IsValid (process_submitted to_epoch r c)
  unfolding process_submitted act
  process_submitted-IsValid r c v =
      let w : IsValid (record c { response_timer = false; response_pending = false }) = record {
        one_read = v.one_read;
        timed = refl;
      } in
      if_elim IsValid r.result_true (same-IsValid _ _ refl refl refl w)
        (same-IsValid _ _ refl refl refl w)

  process_response-IsValid :
      (r : Reply) (c : Client) → IsValid c → Gives IsValid (process_response to_epoch r c)
  unfolding process_response
  process_response-IsValid r c v =
      if_elim (Gives IsValid) (r.id == 1) (process_subscribed-IsValid r c v) (
        if_elim (Gives IsValid) (r.id == 2) v (
          if_elim (Gives IsValid) (r.id == 3)
            (if_elim (Gives IsValid) (not r.result_true) (disconnect-IsValid _ v.one_read)
              (same-IsValid c _ refl refl refl v))
            (if_elim (Gives IsValid) (r.id == 4) (process_submitted-IsValid r c v)
              (process_method-IsValid r c v))))

  read_response-IsValid :
      (ec bytes : Bool) (line : Option Reply) (c : Client)
      → IsValid c
      → Gives IsValid (read_response to_epoch ec bytes line c)
  unfolding read_response
  read_response-IsValid ec bytes line c v =
      let less = if ltb 0 c.pending then c.pending - 1 else 0 in
      let few : less ≤ 1 =
        if_elim (λ (n : ℕ). n ≤ 1) (ltb 0 c.pending) (omega (arith, v.one_read)) (omega arith) in
      let w : IsValid (record c { pending = less }) = record { one_read = few; timed = v.timed } in
      if_elim (Gives IsValid) (not ec && bytes)
        (Gives-next IsValid IsValid _ _ (of_line line _ w)
          (λ d u. if_elim IsValid d.connected (readline-IsValid d u) u))
        (if_elim (Gives IsValid) c.connected (disconnect-IsValid _ few) w)
    where
      of_line :
          (l : Option Reply) (d : Client)
          → IsValid d
          → Gives IsValid (elim l [ none ↦ ok d | some r ↦ process_response to_epoch r d ])
      of_line none d w = w
      of_line (some r) d w = process_response-IsValid r d w

given :
    (P : Client → Type 0) (r : Result StratumError Client) (c : Client) → r ≡ ok c → Gives P r → P c
given P r c e g = rw e at g

Step-IsValid : (to_epoch : ℕ → ℤ) {c d : Client} → Step to_epoch c d → IsValid c → IsValid d
unfolding connect resolve_handler handle_response work_timeout_handler response_timeout_handler
    hashrate_event_handler submit_hashrate submit_solution act
Step-IsValid to_epoch (connecting {c}) v = same-IsValid c _ refl refl refl v
Step-IsValid to_epoch (disconnecting {c} {d} e) v =
    given IsValid _ d e (disconnect-IsValid c v.one_read)
Step-IsValid to_epoch (resolved ec {c} {d} e) v = given IsValid _ d e (
    if_elim (Gives IsValid) (not ec) (same-IsValid c _ refl refl refl v)
      (disconnect-IsValid c v.one_read))
Step-IsValid to_epoch (answered ec hec {c} {d} e) v =
    given IsValid _ d e (connect_handler-IsValid ec hec c v)
Step-IsValid to_epoch (written ec {c}) v = if_elim IsValid (not ec) (readline-IsValid c v) v
Step-IsValid to_epoch (read ec bytes line {c} {d} e) v =
    given IsValid _ d e (read_response-IsValid to_epoch ec bytes line c v)
Step-IsValid to_epoch (work_timed_out ec {c} {d} e) v =
    given IsValid _ d e (if_elim (Gives IsValid) (not ec) (disconnect-IsValid _ v.one_read) v)
Step-IsValid to_epoch (response_timed_out {c} {d} e) v =
    given IsValid _ d e (disconnect-IsValid _ v.one_read)
Step-IsValid to_epoch (rate_due ec {c} {d} e) v =
    let w = same-IsValid c (record c { hashrate_timer = false }) refl refl refl v in
    given IsValid _ d e (if_elim (Gives IsValid) (ec || c.linkdown) w (send-IsValid _ _ w))
Step-IsValid to_epoch (rate_given rate {c}) v =
    if_elim IsValid (not c.submits_hashrate || c.linkdown) v (same-IsValid c _ refl refl refl v)
Step-IsValid to_epoch (solution_given sol {c} {d} e) v = given IsValid _ d e (
    Gives-next IsValid IsValid (send (solution_line sol c) (record c { stale = sol.stale })) _
      (send-IsValid _ _ (same-IsValid c _ refl refl refl v))
      (λ d w. record { one_read = w.one_read; timed = refl }))

-- However the client came to its state from a valid one, at most one line is being read, and a solution
-- is being answered just while the timer for its answer is armed.
pub Run-IsValid : (to_epoch : ℕ → ℤ) {c d : Client} → Run to_epoch c d → IsValid c → IsValid d
Run-IsValid to_epoch done v = v
Run-IsValid to_epoch (next ss s) v = Step-IsValid to_epoch s (Run-IsValid to_epoch ss v)
