-- ===== src/Rlp/Reader.antt =====
-- libdevcore/RLP.{h,cpp}: the class `RLP`, which reads an encoding. Its data is a view of bytes, here
-- the list of the bytes; positions of the view are counted from its start.
pub mod Headers
pub mod Elements
use prog_po_w_miner.Common.{
  ℕ, zero, suc, ◌+◌, ◌-◌, ◌^◌, min, List, [], ◌∷◌, ◌++◌, Bool, true, false, not, ◌&&◌, ◌||◌, length,
  get_or, take, drop, ltb, leb, ◌==◌, if◌then◌else◌,
}
use prog_po_w_miner.Common.Result.{Result, ok, err, ◌>>=◌}
use prog_po_w_miner.DevCore.Endian.{from_big_endian}
use prog_po_w_miner.Rlp.Format.{
  max_length_bytes, data_imm_len_start, list_start, data_ind_len_zero, list_ind_len_zero, RlpError,
  oversize, undersize, bad_rlp, bad_cast,
}

-- `vector_ref::cropped(_begin, _count)` and `cropped(_begin)`: a view that would leave the data is empty.
unfoldable pub cropped : List ℕ → ℕ → ℕ → List ℕ
cropped d begin n =
    if leb begin (length d) && leb n (length d) && leb (begin + n) (length d)
    then take n (drop begin d)
    else []

unfoldable pub cropped_from : List ℕ → ℕ → List ℕ
cropped_from d begin = if leb begin (length d) then drop begin d else []

abbrev pub first : List ℕ → ℕ
first d = get_or d 0 0

unfoldable pub is_null : List ℕ → Bool
is_null d = length d == 0

unfoldable pub is_data : List ℕ → Bool
is_data d = not (is_null d) && ltb (first d) list_start

unfoldable pub is_list : List ℕ → Bool
is_list d = not (is_null d) && leb list_start (first d)

unfoldable pub is_single_byte : List ℕ → Bool
is_single_byte d = not (is_null d) && ltb (first d) data_imm_len_start

-- `requireGood()`: a single byte that could stand for itself must not have a header.
unfoldable pub require_good : List ℕ → Result RlpError (Unit {0})
require_good d =
    if is_null d
    then err bad_rlp
    else if not (first d == data_imm_len_start + 1)
    then ok tt
    else if ltb (length d) 2
    then err bad_rlp
    else if ltb (get_or d 1 0) data_imm_len_start
    then err bad_rlp
    else ok tt

-- The length that `size` bytes behind the first one give; it must not fit the short form.
unfoldable pub long_length : List ℕ → ℕ → ℕ → Result RlpError ℕ
long_length d size least =
    if leb (length d) size
    then err bad_rlp
    else if ltb 1 (length d) && get_or d 1 0 == 0
    then err bad_rlp
    else if ltb 8 size
    then err undersize
    else if get_or d 1 0 == 0
    then err bad_rlp
    else let ret = from_big_endian 64 (take size (drop 1 d)) in
      if ltb ret least
      then err bad_rlp
      else if leb (2 ^ 64 - 1 - 0x100) ret
      then err undersize
      else ok ret

unfoldable pub length_by_type : List ℕ → Result RlpError ℕ
length_by_type d =
    let n = first d in
    if ltb n data_imm_len_start
    then ok 1
    else if leb n data_ind_len_zero
    then ok (n - data_imm_len_start)
    else if ltb n list_start
    then long_length d (n - data_ind_len_zero) (list_start - data_imm_len_start - max_length_bytes)
    else if leb n list_ind_len_zero
    then ok (n - list_start)
    else long_length d (n - list_ind_len_zero) (0x100 - list_start - max_length_bytes)

-- `length()`
unfoldable pub payload_length : List ℕ → Result RlpError ℕ
payload_length d = if is_null d then ok 0 else (require_good d >>= λ _. length_by_type d)

-- `lengthSize()`
unfoldable pub length_size : List ℕ → ℕ
length_size d =
    if is_data d && ltb data_ind_len_zero (first d)
    then first d - data_ind_len_zero
    else if is_list d && ltb list_ind_len_zero (first d)
    then first d - list_ind_len_zero
    else 0

-- `payloadOffset()`
unfoldable pub payload_offset : List ℕ → ℕ
payload_offset d = if is_single_byte d then 0 else 1 + length_size d

-- `payload()`
unfoldable pub payload : List ℕ → Result RlpError (List ℕ)
payload d = payload_length d >>= λ l.
    if ltb (length d) l then err bad_rlp else ok (cropped d (payload_offset d) l)

-- `actualSize()`
unfoldable pub actual_size : List ℕ → Result RlpError ℕ
actual_size d =
    if is_null d
    then ok 0
    else if is_single_byte d
    then ok 1
    else if is_data d || is_list d
    then (payload_length d >>= λ l. ok (payload_offset d + l))
    else ok 0

pub record Strictness : Type 0 where
  pub throw_on_fail : Bool
  pub fail_if_too_big : Bool
  pub fail_if_too_small : Bool

abbrev pub very_strict : Strictness
very_strict = record { throw_on_fail = true; fail_if_too_big = true; fail_if_too_small = true }

-- What a failed check of the constructor does.
unfoldable pub fail : Strictness → RlpError → Result RlpError (List ℕ)
fail s e = if s.throw_on_fail then err e else ok []

unfoldable pub check_too_big : Strictness → List ℕ → Result RlpError (List ℕ)
check_too_big s d =
    if s.fail_if_too_big
    then (actual_size d >>= λ a. if ltb a (length d) then fail s oversize else ok d)
    else ok d

-- The second check reads the data that the first one may have reset, and the size of the argument.
unfoldable pub check_too_small : Strictness → ℕ → List ℕ → Result RlpError (List ℕ)
check_too_small s size d =
    if s.fail_if_too_small
    then (actual_size d >>= λ a. if ltb size a then fail s undersize else ok d)
    else ok d

-- The constructor `RLP(bytesConstRef, Strictness)`; the result is the data of the object.
unfoldable pub make : Strictness → List ℕ → Result RlpError (List ℕ)
make s d = check_too_big s d >>= check_too_small s (length d)

-- `sizeAsEncoded(_data)`
unfoldable pub size_as_encoded : List ℕ → Result RlpError ℕ
size_as_encoded d = make (record very_strict { fail_if_too_big = false }) d >>= actual_size

-- `toBytes()`: the copy starts at the payload and has its length.
unfoldable pub to_bytes : List ℕ → Result RlpError (List ℕ)
to_bytes d =
    if is_data d then (payload d >>= λ p. payload_length d >>= λ l. ok (take l p)) else ok []
