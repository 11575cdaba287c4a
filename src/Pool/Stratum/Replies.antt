-- ===== src/Pool/Stratum/Replies.antt =====
-- libpoolprotocols/stratum/EthStratumClient.cpp: what the client does on a reply of the pool. The epoch
-- of a seed hash (`EthashAux::toEpoch`) is the parameter `to_epoch`.
use prog_po_w_miner.Common.{
  ℕ, ◌+◌, ◌-◌, ◌*◌, ◌^◌, ◌%◌, List, [], ◌∷◌, ◌++◌, Bool, true, false, not, ◌&&◌, ◌||◌, Option, none,
  some, length, get_or, take, drop, replicate, ltb, ◌==◌, if◌then◌else◌,
}
use prog_po_w_miner.Common.Integers.{ℤ, pos}
use prog_po_w_miner.Common.Result.{Result, ok, err, ◌>>=◌}
use prog_po_w_miner.Common.Text.{same_text}
use prog_po_w_miner.Pool.Stratum.State.{
  ethproxy, ethereum_stratum, extranonce_subscribe, authorize, get_work, version_reply,
  handler_work, handler_accepted, handler_rejected, Client, Element, Reply, StratumError,
  out_of_range, hash_of, act,
}
use prog_po_w_miner.Pool.Stratum.Session.{send, disconnect, reset_work_timeout, readline}

-- What a missing member of an array is read as: no text and the number 0, or the difficulty 1, whose
-- boundary `diffToTarget` makes of the quotient 0xffff0000.
abbrev pub no_element : Element
no_element = record { as_text = []; as_int = 0; as_boundary = 0xffff0000 * 2 ^ 192 }

abbrev pub member : List Element → ℕ → Element
member es i = get_or es i no_element

-- Zeros up to the given length.
unfoldable pub padded : ℕ → List ℕ → List ℕ
padded n s = s ++ replicate (n - length s) 48

-- `processExtranonce(enonce)`
unfoldable pub process_extranonce : List ℕ → Client → Result StratumError Client
process_extranonce enonce c = hash_of 8 (padded 16 enonce) >>= λ e.
    ok (record c { extra_nonce_hex_size = length enonce; extra_nonce = e })

-- `std::string::resize(64, '0')`
unfoldable pub resized : ℕ → List ℕ → List ℕ
resized n s = take n (padded n s)

-- A share target gets zeros behind its first two characters up to 66. One of less than two characters
-- cannot be cut.
unfoldable pub share_target : List ℕ → Result StratumError (List ℕ)
share_target s =
    if not (ltb (length s) 66)
    then ok s
    else if ltb (length s) 2
    then err out_of_range
    else ok (48 ∷ 120 ∷ (replicate (66 - length s) 48 ++ drop 2 s))

-- The nonce that `h64` holds, its bytes swapped and read as a number of the machine, which swaps them
-- again; a `uint32_t` keeps the low half.
unfoldable pub start_nonce_of : ℕ → ℕ
start_nonce_of e = e % 2 ^ 64 % 2 ^ 32

module _ (to_epoch : ℕ → ℤ) where
  -- "mining.notify" of EthereumStratum
  unfoldable pub notify_short : List Element → Client → Result StratumError Client
  notify_short ps c =
      let job = (member ps 0).as_text in
      let seed = (member ps 1).as_text in
      let header = (member ps 2).as_text in
      if length header == 0 || length seed == 0
      then ok c
      else hash_of 32 header >>= λ h. hash_of 32 seed >>= λ s. hash_of 32 (resized 64 job) >>= λ j.
          let w = record c.current {
            header = h;
            epoch = to_epoch s;
            height = (member ps 3).as_int;
            boundary = c.next_boundary;
            start_nonce = start_nonce_of c.extra_nonce;
            ex_size_bits = pos (c.extra_nonce_hex_size * 4);
            job_len = length job;
            job = j;
          } in
          ok (act (handler_work w) (record (reset_work_timeout c) { current = w }))

  -- A job with the hashes in the members from `i` on; only another header than the current one counts.
  unfoldable pub notify_long : ℕ → List Element → Client → Result StratumError Client
  notify_long i ps c =
      let job = (member ps 0).as_text in
      let header = (member ps i).as_text in
      let seed = (member ps (i + 1)).as_text in
      share_target (member ps (i + 2)).as_text >>= λ target.
      if length header == 0 || length seed == 0 || length target == 0
      then ok c
      else hash_of 32 header >>= λ h.
          if h == c.current.header
          then ok c
          else hash_of 32 seed >>= λ s. hash_of 32 target >>= λ b. hash_of 32 job >>= λ j.
              let w = record c.current {
                header = h;
                epoch = to_epoch s;
                boundary = b;
                height = (member ps (i + 3)).as_int;
                job = j;
              } in
              ok (act (handler_work w) (record (reset_work_timeout c) { current = w }))

  -- "mining.notify"; a job that comes while a solution is being answered makes that stale.
  unfoldable pub notify : Option (List Element) → Client → Result StratumError Client
  notify none c = ok c
  notify (some ps) c =
      let c = if c.response_pending then record c { stale = true } else c in
      let v = c.connection.version in
      if v == ethereum_stratum
      then notify_short ps c
      else notify_long (if v == ethproxy then 0 else 1) ps c

  -- "mining.set_difficulty"
  unfoldable pub set_difficulty : Option (List Element) → Client → Client
  set_difficulty none c = c
  set_difficulty (some ps) c = record c { next_boundary = (member ps 0).as_boundary }

  -- "mining.set_extranonce"
  unfoldable pub set_extranonce : ℕ → Option (List Element) → Client → Result StratumError Client
  set_extranonce i none c = ok c
  set_extranonce i (some ps) c = process_extranonce (member ps i).as_text c

  -- A reply to no request of the client.
  unfoldable pub process_method : Reply → Client → Result StratumError Client
  process_method r c =
      let v = c.connection.version in
      if v == ethproxy
      then notify r.result c
      else if same_text r.method "mining.notify"
      then notify r.params c
      else if same_text r.method "mining.set_difficulty" && v == ethereum_stratum
      then ok (set_difficulty r.params c)
      else if same_text r.method "mining.set_extranonce" && v == ethereum_stratum
      then set_extranonce 0 r.params c
      else if same_text r.method "client.get_version"
      then send (version_reply r.id) c
      else ok c

  -- The reply to the first request.
  unfoldable pub process_subscribed : Reply → Client → Result StratumError Client
  process_subscribed r c =
      let v = c.connection.version in
      if v == ethereum_stratum
      then (set_extranonce 1 r.result (record c { next_boundary = no_element.as_boundary }) >>= λ c.
          send extranonce_subscribe c >>= λ c.
          send (authorize c.connection.user c.connection.pass) c)
      else if v == ethproxy
      then send get_work (record c { authorized = true })
      else send (authorize c.connection.user c.connection.pass) c

  -- The reply to a solution.
  unfoldable pub process_submitted : Reply → Client → Client
  process_submitted r c =
      let c = record c { response_timer = false; response_pending = false } in
      if r.result_true then act (handler_accepted c.stale) c else act (handler_rejected c.stale) c

  -- `processReponse(responseObject)`
  unfoldable pub process_response : Reply → Client → Result StratumError Client
  process_response r c =
      if r.id == 1
      then process_subscribed r c
      else if r.id == 2
      then ok c
      else if r.id == 3
      then (let c = record c { authorized = r.result_true } in
          if not r.result_true then disconnect c else ok c)
      else if r.id == 4
      then ok (process_submitted r c)
      else process_method r c

  -- `readResponse(ec, bytes_transferred)`: `bytes` says whether some came, and the line is a reply or none.
  unfoldable pub read_response :
      (ec bytes : Bool) → Option Reply → Client → Result StratumError Client
  read_response ec bytes line c =
      let c = record c { pending = if ltb 0 c.pending then c.pending - 1 else 0 } in
      if not ec && bytes
      then (elim line [ none ↦ ok c | some r ↦ process_response r c ] >>= λ c.
          ok (if c.connected then readline c else c))
      else if c.connected
      then disconnect c
      else ok c
