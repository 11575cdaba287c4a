-- ===== src/Pool/Getwork/Rounds.antt =====
-- What a round of the loop of libpoolprotocols/getwork/EthGetworkClient.cpp does.
use prog_po_w_miner.Common.{
  ℕ, ◌≡◌, ◌≢◌, refl, sym, ◌∙◌, ap, List, [], ◌∷◌, ◌++◌, Bool, true, false, Option, none, some, ◌==◌,
  if◌then◌else◌, if_elim, arith,
}
use prog_po_w_miner.Common.Integers.{ℤ}
use prog_po_w_miner.Common.Result.{ok}
use prog_po_w_miner.Mining.Work.{WorkPackage, Solution}
use prog_po_w_miner.Pool.Stratum.State.{Element}
use prog_po_w_miner.Pool.Getwork.{
  submit_work, get_work, handler_connected, handler_accepted, handler_rejected, Getwork, act,
  connect, disconnect, submit_solution, solution_answered, submit_pending, note_connected, parsed,
  text_at, note_work, fetch,
}
use mathlib.Core.List.{append-nil}

nonzero : {n : ℕ} → n ≢ 0 → (n == 0) ≡ false
nonzero ne = ground (arith, ne)

-- A solution with a nonce other than 0 is sent in the next round; if the node answers, the handler is
-- called once and the solution is gone, and if the call fails it is kept for the round after.
submit_pending-solution :
    (sol : Solution) (answer : Option Bool) (g : Getwork)
    → sol.nonce ≢ 0
    → (submit_pending answer (submit_solution sol g)).actions
      ≡ (g.actions ++ (submit_work sol ∷ [])) ++ elim answer [
        | none ↦ []
        | some accepted ↦ (if accepted then handler_accepted false else handler_rejected false) ∷ []
      ]
unfolding submit_pending submit_solution solution_answered act
submit_pending-solution sol none g ne = rw (nonzero ne, append-nil) refl
submit_pending-solution sol (some true) g ne = rw (nonzero ne) refl
submit_pending-solution sol (some false) g ne = rw (nonzero ne) refl

connect-prev_work : (id : ℕ) (g : Getwork) → (connect id g).prev_work ≡ g.prev_work
unfolding connect act
connect-prev_work id g =
    if_elim (λ (h : Getwork). h.prev_work ≡ g.prev_work) g.connection_changed refl refl

connect-just : (id : ℕ) (g : Getwork) → (connect id g).just_connected ≡ true
unfolding connect
connect-just id g = refl

fetch_again :
    (to_epoch : ℕ → Option ℤ) (seed : ℕ) (epoch : ℤ) (es : List Element) (g : Getwork)
    → parsed (text_at es 0) ≡ ok g.prev_work.header
    → parsed (text_at es 1) ≡ ok seed
    → to_epoch seed ≡ some epoch
    → g.just_connected ≡ true
    → (h : Getwork) × (fetch to_epoch (some es) g ≡ ok h)
      × (h.actions ≡ (g.actions ++ (get_work ∷ [])) ++ (handler_connected ∷ []))
      × (h.connected ≡ true)
unfolding fetch note_work note_connected act
fetch_again to_epoch seed epoch es g a b c j = (
  record g {
    just_connected = false;
    connected = true;
    actions = (g.actions ++ (get_work ∷ [])) ++ (handler_connected ∷ []);
  },
  rw (a, b, c, j, itself) refl,
  refl,
  refl,
)
  where
    itself : (g.prev_work.header == g.prev_work.header) ≡ true
    itself = ground arith

-- After a connection is lost and made again, work with the header of before makes the client call the
-- handler of the connection, but not that of the work.
pub fetch-same_header :
    (to_epoch : ℕ → Option ℤ) (id seed : ℕ) (epoch : ℤ) (es : List Element) (g : Getwork)
    → parsed (text_at es 0) ≡ ok g.prev_work.header
    → parsed (text_at es 1) ≡ ok seed
    → to_epoch seed ≡ some epoch
    → (h : Getwork) × (fetch to_epoch (some es) (connect id (disconnect g)) ≡ ok h)
      × (h.actions
          ≡ ((connect id (disconnect g)).actions ++ (get_work ∷ [])) ++ (handler_connected ∷ []))
      × (h.connected ≡ true)
unfolding disconnect act
fetch-same_header to_epoch id seed epoch es g a b c =
    let again = connect id (disconnect g) in
    let header : parsed (text_at es 0) ≡ ok again.prev_work.header =
      a ∙ ap (λ (w : WorkPackage). ok w.header) (sym (connect-prev_work id (disconnect g))) in
    fetch_again to_epoch seed epoch es again header b c (connect-just id (disconnect g))
