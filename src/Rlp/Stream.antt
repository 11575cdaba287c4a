-- ===== src/Rlp/Stream.antt =====
-- libdevcore/RLP.{h,cpp}: `RLPStream`, which writes an encoding item by item. The end of `m_listStack`
-- is the head of the list `stack`: the items still to come and where the payload starts.
pub mod Headers
pub mod Refinement
use prog_po_w_miner.Common.{
  ℕ, zero, suc, ◌+◌, ◌-◌, ◌/◌, ◌%◌, List, [], ◌∷◌, ◌++◌, Bool, length, set, take, drop, replicate,
  ltb, leb, ◌==◌, if◌then◌else◌,
}
use prog_po_w_miner.Common.Result.{Result, ok, err, ◌>>=◌}
use prog_po_w_miner.DevCore.Endian.{bytes_required}
use prog_po_w_miner.Rlp.Format.{
  data_imm_len_start, list_start, data_imm_len_count, data_ind_len_zero, list_imm_len_count,
  list_ind_len_zero, RlpError, rlp_exception,
}

pub record Stream : Type 0 where
  pub out : List ℕ
  pub stack : List (ℕ × ℕ)

abbrev pub empty : Stream
empty = record { out = []; stack = [] }

-- for (; i; i >>= 8) *(b--) = (byte)i, with `b` at the position `at`. Each round makes `i` smaller, so
-- `i` rounds are enough.
unfoldable pub write_back : ℕ → List ℕ → ℕ → ℕ → List ℕ
write_back zero out at i = out
write_back (suc fuel) out at i =
    let rest = write_back fuel (set out at (i % 256)) (at - 1) (i / 256) in
    if i == 0 then out else rest

-- `pushInt(_i, _br)`
unfoldable pub push_int : List ℕ → ℕ → ℕ → List ℕ
push_int out i br = let grown = out ++ replicate br 0 in write_back i grown (length grown - 1) i

-- `pushCount(_count, _base)`
unfoldable pub push_count : List ℕ → ℕ → ℕ → Result RlpError (List ℕ)
push_count out n base =
    let br = bytes_required n in
    if ltb 0xff (br + base)
    then err rlp_exception
    else ok (push_int (out ++ (br + base) % 256 ∷ []) n br)

-- A list is complete: its payload from `p` on moves back and its header is written before it.
unfoldable pub close_list : List ℕ → ℕ → Result RlpError (List ℕ)
close_list out p =
    let s = length out - p in
    let brs = bytes_required s in
    let encode_size = if ltb s list_imm_len_count then 1 else 1 + brs in
    let grown = out ++ replicate encode_size 0 in
    let moved = take (p + encode_size) grown ++ drop p out in
    if ltb s list_imm_len_count
    then ok (set moved p ((list_start + s) % 256))
    else if leb (list_ind_len_zero + brs) 0xff
    then ok (write_back s (set moved p ((list_ind_len_zero + brs) % 256)) (p + brs) s)
    else err rlp_exception

-- The loop of `noteAppended`: `n` items more on the innermost open list.
unfoldable pub note_loop : List ℕ → List (ℕ × ℕ) → ℕ → Result RlpError Stream
note_loop out [] n = ok (record { out = out; stack = [] })
note_loop out ((left, p) ∷ stack) n =
    if ltb left n
    then err rlp_exception
    else if left - n == 0
    then (close_list out p >>= λ closed. note_loop closed stack 1)
    else ok (record { out = out; stack = (left - n, p) ∷ stack })

-- `noteAppended(_itemCount)`
unfoldable pub note_appended : ℕ → Stream → Result RlpError Stream
note_appended n s = if n == 0 then ok s else note_loop s.out s.stack n

-- `appendRaw(_rlp, _itemCount)`
unfoldable pub append_raw : List ℕ → ℕ → Stream → Result RlpError Stream
append_raw raw n s = note_appended n (record s { out = s.out ++ raw })

-- `appendList(bytesConstRef)`: the payload is at hand.
unfoldable pub append_list_raw : List ℕ → Stream → Result RlpError Stream
append_list_raw raw s =
    (if ltb (length raw) list_imm_len_count
      then ok (s.out ++ (length raw + list_start) % 256 ∷ [])
      else push_count s.out (length raw) list_ind_len_zero)
    >>= λ out. append_raw raw 1 (record s { out = out })

-- `appendList(size_t)`
unfoldable pub append_list : ℕ → Stream → Result RlpError Stream
append_list items s =
    if items == 0
    then append_list_raw [] s
    else ok (record s { stack = (items, length s.out) ∷ s.stack })

-- The zero bytes that `_compact` skips.
unfoldable pub skip_zeros : List ℕ → List ℕ
skip_zeros [] = []
skip_zeros (b ∷ bs) = let rest = skip_zeros bs in if b == 0 then rest else b ∷ bs

-- A datum that is not a single small byte.
unfoldable pub append_long : List ℕ → Stream → Result RlpError Stream
append_long bs s =
    (if ltb (length bs) data_imm_len_count
      then ok (s.out ++ (length bs + data_imm_len_start) % 256 ∷ [])
      else push_count s.out (length bs) data_ind_len_zero)
    >>= λ out. append_raw bs 0 (record s { out = out })

unfoldable pub append_datum : List ℕ → Stream → Result RlpError Stream
append_datum [] s = append_long [] s
append_datum (b ∷ []) s =
    if ltb b data_imm_len_start
    then ok (record s { out = s.out ++ b ∷ [] })
    else append_long (b ∷ []) s
append_datum (b ∷ c ∷ bs) s = append_long (b ∷ c ∷ bs) s

-- `append(bytesConstRef, bool)`
unfoldable pub append_bytes : List ℕ → Bool → Stream → Result RlpError Stream
append_bytes bs compact s =
    append_datum (if compact then skip_zeros bs else bs) s >>= note_appended 1

-- The length of an integer of `br` bytes.
unfoldable pub push_int_header : ℕ → List ℕ → Result RlpError (List ℕ)
push_int_header br out =
    if ltb br data_imm_len_count
    then ok (out ++ (br + data_imm_len_start) % 256 ∷ [])
    else if ltb 0xff (data_ind_len_zero + bytes_required br)
    then err rlp_exception
    else ok (
        push_int (out ++ (data_ind_len_zero + bytes_required br) % 256 ∷ []) br (bytes_required br))

unfoldable pub push_integer : ℕ → List ℕ → Result RlpError (List ℕ)
push_integer i out =
    if i == 0
    then ok (out ++ data_imm_len_start ∷ [])
    else if ltb i data_imm_len_start
    then ok (out ++ i ∷ [])
    else (push_int_header (bytes_required i) out >>= λ headed.
        ok (push_int headed i (bytes_required i)))

-- `append(bigint)`
unfoldable pub append_int : ℕ → Stream → Result RlpError Stream
append_int i s = push_integer i s.out >>= λ out. note_appended 1 (record s { out = out })

-- `out()`
unfoldable pub finish : Stream → Result RlpError (List ℕ)
finish s = elim s.stack [ [] ↦ ok s.out | top ∷ rest ↦ err rlp_exception ]
