-- ===== src/Pool/Getwork/Runs.antt =====
-- libpoolprotocols/getwork/EthGetworkClient.cpp at concrete inputs: a client that has work for its miners.
use prog_po_w_miner.Common.{ℕ, ◌≡◌, refl, List, [], ◌∷◌, ◌++◌, true, false, Option, some, replicate}
use prog_po_w_miner.Common.Integers.{ℤ, pos}
use prog_po_w_miner.Common.Result.{ok}
use prog_po_w_miner.Mining.Work.{no_work, Solution}
use prog_po_w_miner.Pool.Stratum.State.{Element, hash_of, hash_of_bytes}
use prog_po_w_miner.DevCore.Hex.{from_hex, from_hex_pairs, has_prefix, pair_value, hex_value}
use prog_po_w_miner.DevCore.Endian.{from_big_endian}
use prog_po_w_miner.Pool.Getwork.{
  Getwork, new_getwork, get_work, handler_connected, connect, disconnect, parsed, text_at, fetch,
}
use prog_po_w_miner.Pool.Getwork.Rounds.{fetch-same_header}

abbrev found : Solution
found = record { nonce = 9; mix_hash = 4; work = no_work; stale = false }

-- The hash 7, as 64 digits, and the seed hash of epoch 0.
abbrev digits_of : ℕ → List ℕ
digits_of d = replicate 63 48 ++ (d ∷ [])

abbrev members : List Element
members =
    record { as_text = digits_of 55; as_int = 0; as_boundary = 0 }
    ∷ record { as_text = digits_of 48; as_int = 0; as_boundary = 0 }
    ∷ []

abbrev waiting : Getwork
waiting = record new_getwork { connected = true; prev_work = record no_work { header = 7 } }

abbrev first_epoch : ℕ → Option ℤ
first_epoch seed = some (pos 0)

header_read : parsed (text_at members 0) ≡ ok 7
unfolding parsed hash_of from_hex from_hex_pairs has_prefix pair_value hex_value hash_of_bytes
    from_big_endian
header_read = refl

seed_read : parsed (text_at members 1) ≡ ok 0
unfolding parsed hash_of from_hex from_hex_pairs has_prefix pair_value hex_value hash_of_bytes
    from_big_endian
seed_read = refl

fetch-same_header_example :
    (h : Getwork) × (fetch first_epoch (some members) (connect 5 (disconnect waiting)) ≡ ok h)
    × (h.actions
        ≡ ((connect 5 (disconnect waiting)).actions ++ (get_work ∷ [])) ++ (handler_connected ∷ []))
    × (h.connected ≡ true)
fetch-same_header_example =
    fetch-same_header first_epoch 5 0 (pos 0) members waiting header_read seed_read refl
