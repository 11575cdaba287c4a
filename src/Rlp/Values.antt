-- ===== src/Rlp/Values.antt =====
-- libdevcore/RLP.{h,cpp}: how `RLP` gives an item as an integer or as a hash, which is here the list of
-- its bytes.
pub mod Integers
pub mod Hashes
use prog_po_w_miner.Common.{
  ℕ, ◌+◌, ◌-◌, min, List, [], ◌∷◌, ◌++◌, Bool, true, false, not, ◌&&◌, ◌||◌, length, get_or, take,
  replicate, ltb, leb, ◌==◌, if◌then◌else◌,
}
use prog_po_w_miner.Common.Result.{Result, ok, err, ◌>>=◌}
use prog_po_w_miner.DevCore.Endian.{from_big_endian}
use prog_po_w_miner.Rlp.Format.{
  RlpError, bad_rlp, bad_cast, data_imm_len_start, data_ind_len_zero, list_start,
}
use prog_po_w_miner.Rlp.Reader.{Strictness, first, is_null, is_list, is_data, require_good, payload}

-- A byte at a position that must be there is not 0.
unfoldable pub nonzero_at : List ℕ → ℕ → Result RlpError Bool
nonzero_at d i = if leb (length d) i then err bad_rlp else ok (not (get_or d i 0 == 0))

-- `isInt()`
unfoldable pub is_int : List ℕ → Result RlpError Bool
is_int d =
    if is_null d
    then ok false
    else (require_good d >>= λ _.
        let n = first d in
        if ltb n data_imm_len_start
        then ok (not (n == 0))
        else if n == data_imm_len_start
        then ok true
        else if leb n data_ind_len_zero
        then nonzero_at d 1
        else if ltb n list_start
        then nonzero_at d (1 + n - data_ind_len_zero)
        else ok false)

-- What a failed conversion gives.
unfoldable pub fail_cast {ℓ} : {A : Type ℓ} → Strictness → A → Result RlpError A
fail_cast s other = if s.throw_on_fail then err bad_cast else ok other

-- `toInt<T>(_flags)` for a type of at most `max_size` bytes in a number of bits
unfoldable pub to_int :
    (width max_size : ℕ) (allow_non_canon : Bool) → Strictness → List ℕ → Result RlpError ℕ
to_int width max_size allow_non_canon s d = require_good d >>= λ _. is_int d >>= λ int.
    if not int && not allow_non_canon || is_list d || is_null d
    then fail_cast s 0
    else (payload d >>= λ p.
        if ltb max_size (length p) && s.fail_if_too_big
        then fail_cast s 0
        else ok (from_big_endian width p))

-- `toHash<N>(_flags)` for a hash of `size` bytes
unfoldable pub to_hash : ℕ → Strictness → List ℕ → Result RlpError (List ℕ)
to_hash size s d = require_good d >>= λ _. payload d >>= λ p.
    let l = length p in
    if not (is_data d) || ltb size l && s.fail_if_too_big || ltb l size && s.fail_if_too_small
    then fail_cast s (replicate size 0)
    else ok (replicate (size - min size l) 0 ++ take (min size l) p)
