-- ===== src/Mining/BlockHeader/Runs.antt =====
-- Block headers of libethcore/BlockHeader.cpp at a concrete one: block 5 with a difficulty of 1000, and
-- the number of bytes in place of the hash function.
use prog_po_w_miner.Common.{
  ℕ, ◌-◌, ◌/◌, ◌^◌, ◌<◌, ◌≡◌, refl, List, [], ◌∷◌, length, replicate, ltb, if◌then◌else◌, arith,
}
use prog_po_w_miner.Common.Result.{ok, err}
use prog_po_w_miner.Rlp.Format.{Items, bytes, list, nil, cons, encode}
use prog_po_w_miner.DevCore.Endian.{to_compact_big_endian, to_big_endian, bytes_required}
use prog_po_w_miner.Mining.BlockHeader.{
  Header, note_dirty, invalid_number, too_much_gas_used, set_difficulty, boundary, written,
  hash_without, from_block,
}
use prog_po_w_miner.Mining.BlockHeader.RoundTrip.{
  fields, IsSized, block_of, written-encode, from_block-encode,
}
use prog_po_w_miner.Mining.BlockHeader.Caches.{
  Uses, unused, used, made_difficult, bounded, hashed, right_boundary, Uses-up_to_date,
}

abbrev block_5 : Header
block_5 = record {
  parent_hash = replicate 32 1;
  sha3_uncles = replicate 32 2;
  coinbase_address = replicate 20 3;
  state_root = replicate 32 4;
  transactions_root = replicate 32 5;
  receipts_root = replicate 32 6;
  log_bloom = replicate 256 0;
  difficulty = 1000;
  number = 5;
  gas_limit = 9000;
  gas_used = 300;
  timestamp = 1500000000;
  extra_data = 7 ∷ [];
  kept_hash = 0;
  kept_boundary = 0;
}

size_lem : length (encode (list (fields block_5))) ≡ 464
unfolding encode fields to_compact_big_endian to_big_endian bytes_required
size_lem = refl

block_5-IsSized : IsSized block_5
block_5-IsSized = record {
  parent = refl;
  uncles = refl;
  coinbase = refl;
  state = refl;
  transactions = refl;
  receipts = refl;
  bloom = refl;
  difficulty = omega arith;
  number = omega arith;
  limit = omega arith;
  used = omega arith;
  time = omega arith;
  size = omega (arith, size_lem);
}

written-encode_example : written block_5 ≡ ok (encode (list (fields block_5)))
written-encode_example = written-encode block_5 block_5-IsSized

abbrev uncle : Items
uncle = cons (bytes (1 ∷ [])) nil

small : length (encode (list (block_of block_5 nil uncle))) < 2 ^ 64 - 0x101
unfolding encode fields to_compact_big_endian to_big_endian bytes_required
small = let e : length (encode (list (block_of block_5 nil uncle))) ≡ 470 = refl in omega (arith, e)

from_block-encode_example : from_block (encode (list (block_of block_5 nil uncle))) ≡ (
    if ltb (2 ^ 32 - 1) 5
    then err invalid_number
    else if ltb 9000 300
    then err too_much_gas_used
    else ok block_5)
from_block-encode_example = from_block-encode block_5 nil uncle block_5-IsSized small

-- Its hash is taken, its difficulty set to 2000, its boundary computed and its hash taken again.
abbrev kept : Header
kept = record block_5 { difficulty = 2000; kept_boundary = 2 ^ 256 / 2000 }

first : hash_without length block_5 ≡ ok (464, record block_5 { kept_hash = 464 })
unfolding hash_without
first = rw (written-encode block_5 block_5-IsSized, size_lem) refl

used_twice : Uses length block_5 kept
unfolding boundary set_difficulty note_dirty
used_twice = used (used (used unused (hashed 464 first)) (made_difficult 2000)) bounded

kept_size : length (encode (list (fields kept))) ≡ 464
unfolding encode fields to_compact_big_endian to_big_endian bytes_required
kept_size = refl

kept-IsSized : IsSized kept
kept-IsSized = record {
  parent = refl;
  uncles = refl;
  coinbase = refl;
  state = refl;
  transactions = refl;
  receipts = refl;
  bloom = refl;
  difficulty = omega arith;
  number = omega arith;
  limit = omega arith;
  used = omega arith;
  time = omega arith;
  size = omega (arith, kept_size);
}

second : hash_without length kept ≡ ok (464, record kept { kept_hash = 464 })
unfolding hash_without
second = rw (written-encode kept kept-IsSized, kept_size) refl

Uses-up_to_date_example :
    ((boundary kept).0 ≡ right_boundary 2000)
    × ((out : List ℕ) × (written kept ≡ ok out) × (464 ≡ length out))
Uses-up_to_date_example =
    Uses-up_to_date length block_5 kept (record kept { kept_hash = 464 }) 464 refl refl used_twice
      second
