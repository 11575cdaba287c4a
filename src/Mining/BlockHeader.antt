-- ===== src/Mining/BlockHeader.antt =====
-- libethcore/BlockHeader.{h,cpp}: the header of a block, read from the RLP encoding of the block and
-- written for its hash. A hash is the list of its bytes in the fields that are written, and a number
-- where it is kept for later; the hash function `sha3` is a parameter.
pub mod RoundTrip
pub mod Caches
mod Runs
use prog_po_w_miner.Common.{
  ℕ, ◌+◌, ◌-◌, ◌/◌, ◌%◌, ◌^◌, List, [], ◌∷◌, Bool, true, false, not, ◌&&◌, ltb, ◌==◌, if◌then◌else◌,
}
use prog_po_w_miner.Common.Result.{Result, ok, err, ◌>>=◌}
use prog_po_w_miner.Rlp.Format.{RlpError}
use prog_po_w_miner.Rlp.Reader.{very_strict, Strictness, make, is_list, to_bytes}
use prog_po_w_miner.Rlp.Lists.{Cache, new_cache, at}
use prog_po_w_miner.Rlp.Stream.{Stream, empty, append_list, append_bytes, append_int, finish}
use prog_po_w_miner.Rlp.Values.{to_int, to_hash}

-- With what `hashWithout()` and `boundary()` keep, 0 if nothing
pub record Header : Type 0 where
  pub parent_hash : List ℕ
  pub sha3_uncles : List ℕ
  pub coinbase_address : List ℕ
  pub state_root : List ℕ
  pub transactions_root : List ℕ
  pub receipts_root : List ℕ
  pub log_bloom : List ℕ
  pub difficulty : ℕ
  pub number : ℕ
  pub gas_limit : ℕ
  pub gas_used : ℕ
  pub timestamp : ℕ
  pub extra_data : List ℕ
  pub kept_hash : ℕ
  pub kept_boundary : ℕ

-- What is thrown: an exception of RLP, a block of another form with the field at fault, a number that
-- does not fit, or more gas than the limit.
pub data BlockError : Type 0 where
  rlp : RlpError → BlockError
  invalid_block_format : ℕ → BlockError
  invalid_number : BlockError
  too_much_gas_used : BlockError

-- `BasicFields`
abbrev pub basic_fields : ℕ
basic_fields = 13

-- `noteDirty()`
unfoldable pub note_dirty : Header → Header
note_dirty h = record h { kept_hash = 0; kept_boundary = 0 }

-- `setNumber(_v)` and `setDifficulty(_v)`
unfoldable pub set_number : ℕ → Header → Header
set_number v h = note_dirty (record h { number = v })

unfoldable pub set_difficulty : ℕ → Header → Header
set_difficulty v h = note_dirty (record h { difficulty = v })

-- `boundary()`, and the header that keeps it
unfoldable pub boundary : Header → ℕ × Header
boundary h =
    let h =
      if h.kept_boundary == 0 && not (h.difficulty == 0)
      then record h { kept_boundary = 2 ^ 256 / h.difficulty % 2 ^ 256 }
      else h in
    (h.kept_boundary, h)

-- `streamRLPFields(_s)`
unfoldable pub stream_rlp_fields : Header → Stream → Result RlpError Stream
stream_rlp_fields h s =
    append_bytes h.parent_hash false s
    >>= append_bytes h.sha3_uncles false
    >>= append_bytes h.coinbase_address false
    >>= append_bytes h.state_root false
    >>= append_bytes h.transactions_root false
    >>= append_bytes h.receipts_root false
    >>= append_bytes h.log_bloom false
    >>= append_int h.difficulty
    >>= append_int h.number
    >>= append_int h.gas_limit
    >>= append_int h.gas_used
    >>= append_int h.timestamp
    >>= append_bytes h.extra_data false

-- The text that is hashed
unfoldable pub written : Header → Result RlpError (List ℕ)
written h = append_list basic_fields empty >>= stream_rlp_fields h >>= finish

-- `hashWithout()`, and the header that keeps it
unfoldable pub hash_without : (List ℕ → ℕ) → Header → Result RlpError (ℕ × Header)
hash_without sha3 h =
    if h.kept_hash == 0
    then (written h >>= λ out. ok (sha3 out, record h { kept_hash = sha3 out }))
    else ok (h.kept_hash, h)

unfoldable pub thrown {ℓ} : {A : Type ℓ} → Result RlpError A → Result BlockError A
thrown (ok a) = ok a
thrown (err e) = err (rlp e)

-- A field of the header as a hash, an integer or a byte string
unfoldable pub hash_field : List ℕ → (i size : ℕ) → Cache → Result RlpError (List ℕ × Cache)
hash_field d i size c = at d i c >>= λ r. to_hash size very_strict r.0 >>= λ v. ok (v, r.1)

unfoldable pub int_field : List ℕ → ℕ → Cache → Result RlpError (ℕ × Cache)
int_field d i c = at d i c >>= λ r.
    to_int 256 32 false (record very_strict { fail_if_too_small = false }) r.0 >>= λ v. ok (v, r.1)

unfoldable pub bytes_field : List ℕ → ℕ → Cache → Result RlpError (List ℕ × Cache)
bytes_field d i c = at d i c >>= λ r. to_bytes r.0 >>= λ v. ok (v, r.1)

-- The fields in their order, from the data of the header
unfoldable pub read_fields : List ℕ → Result RlpError Header
read_fields d = hash_field d 0 32 new_cache >>= λ parent. hash_field d 1 32 parent.1 >>= λ uncles.
    hash_field d 2 20 uncles.1 >>= λ coinbase. hash_field d 3 32 coinbase.1 >>= λ state.
    hash_field d 4 32 state.1 >>= λ transactions. hash_field d 5 32 transactions.1 >>= λ receipts.
    hash_field d 6 256 receipts.1 >>= λ bloom. int_field d 7 bloom.1 >>= λ difficulty.
    int_field d 8 difficulty.1 >>= λ number. int_field d 9 number.1 >>= λ limit.
    int_field d 10 limit.1 >>= λ used. int_field d 11 used.1 >>= λ time.
    bytes_field d 12 time.1 >>= λ extra. ok (record {
      parent_hash = parent.0;
      sha3_uncles = uncles.0;
      coinbase_address = coinbase.0;
      state_root = state.0;
      transactions_root = transactions.0;
      receipts_root = receipts.0;
      log_bloom = bloom.0;
      difficulty = difficulty.0;
      number = number.0;
      gas_limit = limit.0;
      gas_used = used.0;
      timestamp = time.0;
      extra_data = extra.0;
      kept_hash = 0;
      kept_boundary = 0;
    })

-- `populateFromHeader(_header)`
unfoldable pub populate_from_header : List ℕ → Result BlockError Header
populate_from_header d = thrown (read_fields d) >>= λ h.
    if ltb (2 ^ 32 - 1) h.number
    then err invalid_number
    else if ltb h.gas_limit h.gas_used
    then err too_much_gas_used
    else ok h

-- An item of the block must be a list.
unfoldable pub list_item : List ℕ → ℕ → Cache → Result BlockError (List ℕ × Cache)
list_item d i c =
    thrown (at d i c) >>= λ r. if is_list r.0 then ok r else err (invalid_block_format i)

-- `extractHeader(_block)`
unfoldable pub extract_header : List ℕ → Result BlockError (List ℕ)
extract_header block = thrown (make very_strict block) >>= λ root.
    if not (is_list root)
    then err (invalid_block_format 0)
    else (list_item root 0 new_cache >>= λ header. list_item root 1 header.1 >>= λ transactions.
        list_item root 2 transactions.1 >>= λ uncles. ok header.0)

-- `BlockHeader(_block)`
unfoldable pub from_block : List ℕ → Result BlockError Header
from_block block = extract_header block >>= populate_from_header
