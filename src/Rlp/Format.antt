-- ===== src/Rlp/Format.antt =====
-- The format of libdevcore/RLP.h by itself: nested lists of byte strings and their encoding.
use prog_po_w_miner.Common.{ℕ, suc, ◌+◌, ◌-◌, List, [], ◌∷◌, ◌++◌, length, ltb, if◌then◌else◌}
use prog_po_w_miner.DevCore.Endian.{to_big_endian, bytes_required}

-- `c_rlpMaxLengthBytes`, `c_rlpDataImmLenStart`, `c_rlpListStart` and the constants derived of them.
abbrev pub max_length_bytes : ℕ
max_length_bytes = 8

abbrev pub data_imm_len_start : ℕ
data_imm_len_start = 0x80

abbrev pub list_start : ℕ
list_start = 0xc0

abbrev pub data_imm_len_count : ℕ
data_imm_len_count = list_start - data_imm_len_start - max_length_bytes

abbrev pub data_ind_len_zero : ℕ
data_ind_len_zero = data_imm_len_start + data_imm_len_count - 1

abbrev pub list_imm_len_count : ℕ
list_imm_len_count = 256 - list_start - max_length_bytes

abbrev pub list_ind_len_zero : ℕ
list_ind_len_zero = list_start + list_imm_len_count - 1

-- The exceptions that the code throws.
pub data RlpError : Type 0 where
  oversize undersize bad_rlp bad_cast rlp_exception : RlpError

mutual
  pub data Item : Type 0 where
    bytes : List ℕ → Item
    list : Items → Item

  pub data Items : Type 0 where
    nil : Items
    cons : Item → Items → Items

-- The bytes before a payload: one byte for a short one, else the length of the length and the length.
unfoldable pub header : ℕ → ℕ → ℕ → List ℕ
header start ind_len_zero n =
    if ltb n data_imm_len_count
    then (start + n) ∷ []
    else (ind_len_zero + bytes_required n) ∷ to_big_endian (bytes_required n) n

-- A single byte below 0x80 stands for itself.
unfoldable pub encode_bytes : List ℕ → List ℕ
encode_bytes [] = data_imm_len_start ∷ []
encode_bytes (b ∷ []) =
    if ltb b data_imm_len_start then b ∷ [] else (data_imm_len_start + 1) ∷ b ∷ []
encode_bytes (b ∷ c ∷ bs) =
    header data_imm_len_start data_ind_len_zero (length (b ∷ c ∷ bs)) ++ (b ∷ c ∷ bs)

unfoldable mutual
  unfolding header encode_bytes

  pub encode : Item → List ℕ
  encode (bytes bs) = encode_bytes bs
  encode (list xs) =
      header list_start list_ind_len_zero (length (encode_items xs)) ++ encode_items xs

  pub encode_items : Items → List ℕ
  encode_items nil = []
  encode_items (cons x xs) = encode x ++ encode_items xs

unfoldable pub count : Items → ℕ
count nil = 0
count (cons x xs) = suc (count xs)
