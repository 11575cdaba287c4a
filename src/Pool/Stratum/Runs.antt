-- ===== src/Pool/Stratum/Runs.antt =====
-- libpoolprotocols/stratum/EthStratumClient.cpp at concrete inputs: a client of an EthProxy pool.
use prog_po_w_miner.Common.{ℕ, ◌≡◌, refl, List, [], ◌∷◌, ◌++◌, true, false, none, some, arith}
use prog_po_w_miner.Common.Integers.{ℤ, pos}
use prog_po_w_miner.Common.Result.{ok}
use prog_po_w_miner.Mining.Work.{no_work, Solution}
use prog_po_w_miner.Pool.Client.{no_connection}
use prog_po_w_miner.Pool.Stratum.State.{
  Client, Element, Reply, handler_disconnected, close, write, submit_work, act,
}
use prog_po_w_miner.Pool.Stratum.Session.{
  connect, send, submit_solution, solution_line, is_secure, digits, worker_of, handle_response,
}
use prog_po_w_miner.Pool.Stratum.Replies.{
  process_extranonce, start_nonce_of, process_response, notify, notify_long, share_target,
}
use prog_po_w_miner.Pool.Stratum.Steps.{connecting, written, done, next, IsValid}
use prog_po_w_miner.Pool.Stratum.Steps.Safety.{Run-IsValid}
use prog_po_w_miner.Pool.Stratum.Answers.{answer, submit_solution-notify-answer}
use prog_po_w_miner.Pool.Stratum.Extranonce.{process_extranonce-start_nonce}

abbrev epochs : ℕ → ℤ
epochs n = pos 0

abbrev linked : Client
linked = record {
  conn = record no_connection { host = "a.pool"; user = "u.rig"; version = 1 };
  connection = record no_connection { host = "a.pool"; user = "u.rig"; version = 1 };
  worker = "rig";
  email = "";
  authorized = true;
  connected = true;
  linkdown = false;
  socket = true;
  secure_socket = false;
  nonsecure_socket = true;
  pending = 0;
  current = no_work;
  stale = false;
  response_pending = false;
  work_timer = true;
  response_timer = false;
  hashrate_timer = false;
  rate = [];
  extra_nonce = 0;
  extra_nonce_hex_size = 0;
  next_boundary = 1;
  submits_hashrate = true;
  actions = [];
}

linked-IsValid : IsValid linked
linked-IsValid = record { one_read = omega arith; timed = refl }

abbrev share : Solution
share = record { nonce = 7; mix_hash = 8; work = no_work; stale = false }

Run-IsValid_example : IsValid (handle_response false (connect linked))
Run-IsValid_example =
    Run-IsValid epochs (next (next done connecting) (written false)) linked-IsValid

abbrev ended : Client
ended = record linked {
  authorized = false;
  connected = false;
  linkdown = true;
  socket = false;
  work_timer = false;
  actions = close ∷ handler_disconnected ∷ [];
}

abbrev sent : Client
sent = record linked {
  response_pending = true;
  response_timer = true;
  actions = write (submit_work "rig" 7 0 8) ∷ [];
}

abbrev yes : Reply
yes = record { id = 4; result = none; result_true = true; method = ""; params = none }

submit-linked : submit_solution share linked ≡ ok sent
unfolding submit_solution send is_secure act solution_line
submit-linked = refl

-- A job without its hashes.
abbrev bare_job : List Element
bare_job =
    record { as_text = []; as_int = 0; as_boundary = 0 }
    ∷ record { as_text = []; as_int = 0; as_boundary = 0 }
    ∷ record { as_text = 48 ∷ 120 ∷ []; as_int = 0; as_boundary = 0 }
    ∷ []

notify-sent : notify epochs (some bare_job) sent ≡ ok (record sent { stale = true })
unfolding notify notify_long share_target
notify-sent = refl

submit_solution-notify-answer_example :
    (f : Client) × (process_response epochs yes (record sent { stale = true }) ≡ ok f)
    × (f.actions ≡ sent.actions ++ (answer yes true ∷ []))
    × (f.response_pending ≡ false)
submit_solution-notify-answer_example =
    submit_solution-notify-answer epochs share bare_job yes linked sent
      (record sent { stale = true }) refl submit-linked notify-sent

process_extranonce-start_nonce_example :
    (d : Client) × (process_extranonce (digits 2 0xaf4b) linked ≡ ok d)
    × (start_nonce_of d.extra_nonce ≡ 0)
process_extranonce-start_nonce_example =
    process_extranonce-start_nonce 2 6 0xaf4b linked refl (omega arith) (omega arith)

-- A user without a "." is its own worker.
worker_of-rig : worker_of "rig" ≡ "rig"
unfolding worker_of
worker_of-rig = refl

worker_of-u : worker_of "u.rig" ≡ "rig"
unfolding worker_of
worker_of-u = refl
