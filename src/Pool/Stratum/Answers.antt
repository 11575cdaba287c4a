-- ===== src/Pool/Stratum/Answers.antt =====
-- What libpoolprotocols/stratum/EthStratumClient.cpp says of a solution.
use prog_po_w_miner.Common.{
  ℕ, ◌+◌, ◌≡◌, refl, ap, List, [], ◌∷◌, ◌++◌, Bool, true, false, ◌||◌, some, length, ◌==◌,
  if◌then◌else◌, if_elim,
}
use prog_po_w_miner.Common.Integers.{ℤ}
use prog_po_w_miner.Common.Result.{Result, ok, err, ◌>>=◌}
use prog_po_w_miner.Mining.Work.{Solution}
use prog_po_w_miner.Pool.Stratum.State.{
  Client, Request, hash_of, Action, handler_accepted, handler_rejected, Element, Reply,
  StratumError, act,
}
use prog_po_w_miner.Pool.Stratum.Session.{
  is_secure, reset_work_timeout, send, solution_line, submit_solution,
}
use prog_po_w_miner.Pool.Stratum.Replies.{
  notify, notify_short, notify_long, process_submitted, process_response, share_target, resized,
  member,
}

-- A result is `P`, or an exception.
Gives : (Client → Type 0) → Result StratumError Client → Type 0
Gives P (ok c) = P c
Gives P (err e) = Unit {0}

given :
    (P : Client → Type 0) (r : Result StratumError Client) (c : Client) → r ≡ ok c → Gives P r → P c
unfolding Gives
given P r c e g = rw e at g

Gives-any :
    {A : Type 0} (P : Client → Type 0) (r : Result StratumError A)
    (f : A → Result StratumError Client)
    → ((a : A) → Gives P (f a))
    → Gives P (r >>= f)
unfolding Gives
Gives-any P (ok a) f h = h a
Gives-any P (err e) f h = tt

-- What the handler of a pool's answer to a solution is told.
pub answer : Reply → Bool → Action
answer r stale = if r.result_true then handler_accepted stale else handler_rejected stale

-- A solution is being answered, and is taken for stale or not.
abbrev Waiting : Bool → Client → Type 0
Waiting stale c = (c.stale ≡ stale) × (c.response_pending ≡ true)

submit-Waiting : (sol : Solution) (c : Client) → Gives (Waiting sol.stale) (submit_solution sol c)
unfolding submit_solution Gives send act
submit-Waiting sol c = sent (solution_line sol c) (record c { stale = sol.stale }) refl
  where
    sent :
        (r : Request) (b : Client)
        → b.stale ≡ sol.stale
        → Gives
            (Waiting sol.stale)
            (send r b >>= λ b. ok (record b { response_pending = true; response_timer = true }))
    sent r b e =
        if_elim
          (λ (q : Result StratumError Client).
            Gives (Waiting sol.stale)
              (q >>= λ b. ok (record b { response_pending = true; response_timer = true })))
          (if is_secure b.connection then b.secure_socket else b.nonsecure_socket) (e, refl) tt

short-Waiting :
    (to_epoch : ℕ → ℤ) (ps : List Element) (d : Client)
    → Waiting true d
    → Gives (Waiting true) (notify_short to_epoch ps d)
unfolding notify_short act reset_work_timeout Gives
short-Waiting to_epoch ps d w =
    if_elim (Gives (Waiting true))
      (length ((member ps 2).as_text) == 0 || length ((member ps 1).as_text) == 0) w
      (Gives-any (Waiting true) (hash_of 32 ((member ps 2).as_text)) _ (λ h.
        Gives-any (Waiting true) (hash_of 32 ((member ps 1).as_text)) _ (λ s.
          Gives-any (Waiting true) (hash_of 32 (resized 64 ((member ps 0).as_text))) _ (λ j. w))))

long-Waiting :
    (to_epoch : ℕ → ℤ) (i : ℕ) (ps : List Element) (d : Client)
    → Waiting true d
    → Gives (Waiting true) (notify_long to_epoch i ps d)
unfolding notify_long act reset_work_timeout Gives
long-Waiting to_epoch i ps d w =
    Gives-any (Waiting true) (share_target ((member ps (i + 2)).as_text)) _ (λ target.
      if_elim (Gives (Waiting true))
        (length ((member ps i).as_text) == 0
          || length ((member ps (i + 1)).as_text) == 0
          || length target == 0)
        w
        (Gives-any (Waiting true) (hash_of 32 ((member ps i).as_text)) _ (λ h.
          if_elim (Gives (Waiting true)) (h == d.current.header) w (
            Gives-any (Waiting true) (hash_of 32 ((member ps (i + 1)).as_text)) _ (λ s.
              Gives-any (Waiting true) (hash_of 32 target) _
                (λ b. Gives-any (Waiting true) (hash_of 32 ((member ps 0).as_text)) _ (λ j. w)))))))

marked :
    (q : Bool) (c : Client)
    → q ≡ true
    → c.response_pending ≡ true
    → Waiting true (if q then record c { stale = true } else c)
marked true c e p = (refl, p)
marked false c e p = cc

notify-Waiting :
    (to_epoch : ℕ → ℤ) (ps : List Element) (c : Client)
    → c.response_pending ≡ true
    → Gives (Waiting true) (notify to_epoch (some ps) c)
unfolding notify Gives
notify-Waiting to_epoch ps c p =
    let w = marked c.response_pending c p p in
    if_elim (Gives (Waiting true)) _ (short-Waiting to_epoch ps _ w)
      (long-Waiting to_epoch _ ps _ w)

process_submitted-answer :
    (to_epoch : ℕ → ℤ) (r : Reply) (b : Bool) (c : Client)
    → r.id ≡ 4
    → c.stale ≡ b
    → (d : Client) × (process_response to_epoch r c ≡ ok d)
      × (d.actions ≡ c.actions ++ (answer r b ∷ []))
      × (d.response_pending ≡ false)
unfolding process_response process_submitted act answer
process_submitted-answer to_epoch r b c four e =
    (process_submitted to_epoch r c, rw four refl, told r.result_true, settled r.result_true)
  where
    told :
        (t : Bool)
        → (if t
            then act
                (handler_accepted c.stale)
                (record c { response_timer = false; response_pending = false })
            else act
                (handler_rejected c.stale)
                (record c { response_timer = false; response_pending = false })).actions
          ≡ c.actions ++ ((if t then handler_accepted b else handler_rejected b) ∷ [])
    told true = ap (λ (s : Bool). c.actions ++ (handler_accepted s ∷ [])) e
    told false = ap (λ (s : Bool). c.actions ++ (handler_rejected s ∷ [])) e

    settled :
        (t : Bool)
        → (if t
            then act
                (handler_accepted c.stale)
                (record c { response_timer = false; response_pending = false })
            else act
                (handler_rejected c.stale)
                (record c { response_timer = false; response_pending = false })).response_pending
          ≡ false
    settled true = refl
    settled false = refl

-- The answer of the pool to a solution reaches the handler with the stale mark of that solution.
submit_solution-answer :
    (to_epoch : ℕ → ℤ) (sol : Solution) (r : Reply) (c d : Client)
    → r.id ≡ 4
    → submit_solution sol c ≡ ok d
    → (e : Client) × (process_response to_epoch r d ≡ ok e)
      × (e.actions ≡ d.actions ++ (answer r sol.stale ∷ []))
      × (e.response_pending ≡ false)
submit_solution-answer to_epoch sol r c d four sent =
    process_submitted-answer to_epoch r sol.stale d four
      ((given (Waiting sol.stale) _ d sent (submit-Waiting sol c)).0)

-- If the pool sends a job before its answer, the answer reaches the handler as that to a stale solution.
pub submit_solution-notify-answer :
    (to_epoch : ℕ → ℤ) (sol : Solution) (ps : List Element) (r : Reply) (c d e : Client)
    → r.id ≡ 4
    → submit_solution sol c ≡ ok d
    → notify to_epoch (some ps) d ≡ ok e
    → (f : Client) × (process_response to_epoch r e ≡ ok f)
      × (f.actions ≡ e.actions ++ (answer r true ∷ []))
      × (f.response_pending ≡ false)
submit_solution-notify-answer to_epoch sol ps r c d e four sent job =
    let w = given (Waiting sol.stale) _ d sent (submit-Waiting sol c) in
    process_submitted-answer to_epoch r true e four
      ((given (Waiting true) _ e job (notify-Waiting to_epoch ps d w.1)).0)
