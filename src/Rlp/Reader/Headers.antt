-- ===== src/Rlp/Reader/Headers.antt =====
-- How `RLP` of libdevcore/RLP.{h,cpp} reads the headers of the format.
use prog_po_w_miner.Common.{
  ℕ, zero, suc, ◌+◌, ◌-◌, ◌*◌, ◌/◌, ◌%◌, ◌^◌, ◌≤◌, ◌<◌, ◌≡◌, refl, ap, ◌∙◌, List, [], ◌∷◌, ◌++◌,
  true, false, length, length-append, get_or, take, ltb, leb, ◌==◌, Bool-cases, if◌then◌else◌, ◌⊎◌,
  ◌≢◌, inl, inr, arith,
}
use prog_po_w_miner.Common.Result.{ok}
use prog_po_w_miner.DevCore.Endian.{to_big_endian, from_big_endian, bytes_required}
use prog_po_w_miner.DevCore.Endian.RoundTrip.{
  bytes_required_least, bytes_required-le, length-to_big_endian, from-to_big_endian,
}
use prog_po_w_miner.Rlp.Format.{
  header, list_start, list_ind_len_zero, data_imm_len_start, data_ind_len_zero,
}
use prog_po_w_miner.Rlp.Reader.{
  is_null, is_data, is_list, is_single_byte, require_good, long_length, length_by_type,
  payload_length, length_size, payload_offset,
}
use mathlib.Core.List.{append_assoc}
use native.Mathlib.Nat.{pow-suc}

-- The sizes that the reader accepts: lengths that are added to a header without overflow.
abbrev pub max_size : ℕ
max_size = 2 ^ 64 - 0x101

-- The leading byte of a number that takes all its bytes is not 0.
to_big_endian_head :
    (k n : ℕ)
    → 256 ^ k ≤ n
    → n < 256 ^ suc k
    → (rest : List ℕ) → 0 < get_or (to_big_endian (suc k) n ++ rest) 0 0
unfolding to_big_endian
to_big_endian_head zero n lo hi rest = omega arith
to_big_endian_head (suc k) n lo hi rest =
    rw (append_assoc (to_big_endian (suc k) (n / 256)) ((n % 256) ∷ []) rest) (
      to_big_endian_head k (n / 256) (omega (arith, pow-suc 256 k))
        (omega (arith, pow-suc 256 (suc k))) ((n % 256) ∷ rest))

take-length : (xs ys : List ℕ) (n : ℕ) → length xs ≡ n → take n (xs ++ ys) ≡ xs
take-length [] ys zero e = refl
take-length [] ys (suc n) e = absurd (omega arith)
take-length (x ∷ xs) ys zero e = absurd (omega arith)
take-length (x ∷ xs) ys (suc n) e = ap (◌∷◌ x) (take-length xs ys n (omega arith))

holds_some : (k n : ℕ) → n < 256 ^ k → 0 < n → 0 < k
holds_some zero n h p = absurd (omega arith)
holds_some (suc k) n h p = omega arith

head_nonzero :
    (k n : ℕ) (rest : List ℕ)
    → 0 < k
    → 256 ^ k ≤ 256 * n
    → n < 256 ^ k
    → (get_or (to_big_endian k n ++ rest) 0 0 == 0) ≡ false
head_nonzero zero n rest p lo hi = absurd (omega arith)
head_nonzero (suc k) n rest p lo hi =
    ground (arith, to_big_endian_head k n (omega (arith, pow-suc 256 k)) hi rest)

-- The length behind the first byte of a long header.
long_length_lem :
    (first n : ℕ) (rest : List ℕ)
    → 56 ≤ n
    → n < max_size
    → long_length (first ∷ (to_big_endian (bytes_required n) n ++ rest)) (bytes_required n) 56
      ≡ ok n
unfolding long_length
long_length_lem first n rest lo hi = rw (
  room,
  more,
  head_byte,
  few,
  take-length _ rest k (length-to_big_endian k n),
  value,
  ground_lo,
  ground_hi,
)
  where
    k : ℕ
    k = bytes_required n

    bytes : List ℕ
    bytes = to_big_endian k n ++ rest

    low : 256 ^ k ≤ 256 * n
    low = (bytes_required_least n).2 (omega arith)

    some_bytes : 0 < k
    some_bytes = holds_some k n (bytes_required_least n).0 (omega arith)

    size : length bytes ≡ k + length rest
    size = omega (arith, length-append (to_big_endian k n) rest, length-to_big_endian k n)

    room : leb (suc (length bytes)) k ≡ false
    room = ground (arith, size)

    more : ltb 1 (suc (length bytes)) ≡ true
    more = ground (arith, size, some_bytes)

    few : ltb 8 k ≡ false
    few = ground (arith, bytes_required-le n 8 (omega arith))

    head_byte : (get_or bytes 0 0 == 0) ≡ false
    head_byte = head_nonzero k n rest some_bytes low (bytes_required_least n).0

    value : from_big_endian 64 (to_big_endian k n) ≡ n
    value = from-to_big_endian 64 k n (bytes_required_least n).0 (omega arith)

    ground_lo : ltb n 56 ≡ false
    ground_lo = ground arith

    ground_hi : leb (2 ^ 64 - 1 - 0x100) n ≡ false
    ground_hi = ground arith

-- What the first byte of a list says.
list_first :
    (b : ℕ) (tail : List ℕ)
    → list_start ≤ b
    → (is_list (b ∷ tail) ≡ true)
      × (is_data (b ∷ tail) ≡ false)
      × (is_single_byte (b ∷ tail) ≡ false)
      × (payload_offset (b ∷ tail) ≡ 1 + (b - list_ind_len_zero))
      × (payload_length (b ∷ tail) ≡ (
          if leb b list_ind_len_zero
          then ok (b - list_start)
          else long_length (b ∷ tail) (b - list_ind_len_zero) 56))
unfolding is_list is_data is_null payload_length require_good length_by_type payload_offset
    is_single_byte length_size
list_first b tail h = (ground arith, ground arith, ground arith, ground arith, ground arith)

-- What the first byte of a byte string with a header says.
data_first :
    (b : ℕ) (tail : List ℕ)
    → data_imm_len_start ≤ b
    → b < list_start
    → (b ≢ data_imm_len_start + 1) ⊎ ((0 < length tail) × (data_imm_len_start ≤ get_or tail 0 0))
    → (is_list (b ∷ tail) ≡ false)
      × (is_data (b ∷ tail) ≡ true)
      × (is_single_byte (b ∷ tail) ≡ false)
      × (payload_offset (b ∷ tail) ≡ 1 + (b - data_ind_len_zero))
      × (payload_length (b ∷ tail) ≡ (
          if leb b data_ind_len_zero
          then ok (b - data_imm_len_start)
          else long_length (b ∷ tail) (b - data_ind_len_zero) 56))
unfolding is_list is_data is_null payload_length require_good length_by_type payload_offset
    is_single_byte length_size
data_first b tail lo hi good =
    (ground arith, ground arith, ground arith, ground arith, ground arith)

-- The long form, for either kind of payload.
long_case :
    (base start n : ℕ) (rest : List ℕ)
    → 56 ≤ n
    → n < max_size
    → (if leb (base + bytes_required n) base
        then ok (base + bytes_required n - start)
        else long_length
            ((base + bytes_required n) ∷ (to_big_endian (bytes_required n) n ++ rest))
            (base + bytes_required n - base)
            56)
      ≡ ok n
long_case base start n rest lo hi =
    let k = bytes_required n in
    let some_bytes = holds_some k n (bytes_required_least n).0 (omega arith) in
    let above : leb (base + k) base ≡ false = ground (arith, some_bytes) in
    let size : base + k - base ≡ k = omega arith in
    rw (above, size) (long_length_lem (base + k) n rest lo hi)

-- The header of a list is read back: its kind, the length of its payload and where that starts.
pub list_header_lem :
    (n : ℕ) (rest : List ℕ)
    → n < max_size
    → (is_list (header list_start list_ind_len_zero n ++ rest) ≡ true)
      × (is_data (header list_start list_ind_len_zero n ++ rest) ≡ false)
      × (is_single_byte (header list_start list_ind_len_zero n ++ rest) ≡ false)
      × (payload_offset (header list_start list_ind_len_zero n ++ rest)
          ≡ length (header list_start list_ind_len_zero n))
      × (payload_length (header list_start list_ind_len_zero n ++ rest) ≡ ok n)
unfolding header
list_header_lem n rest h = elim (Bool-cases (ltb n 56)) [
  | inl short ↦
      let (a, b, c, d, e) = list_first (list_start + n) rest (omega arith) in
      rw short (a, b, c, ground arith, ground arith)
  | inr long ↦
      let k = bytes_required n in
      let few = bytes_required-le n 8 (omega arith) in
      let some_bytes = holds_some k n (bytes_required_least n).0 (ground arith) in
      let (a, b, c, d, e) =
        list_first (list_ind_len_zero + k) (to_big_endian k n ++ rest) (omega arith) in
      rw long (
        a,
        b,
        c,
        ground (arith, few, some_bytes, length-to_big_endian k n),
        e ∙ long_case list_ind_len_zero list_start n rest (ground arith) h,
      )
]

-- So is the header of a byte string, unless it is one byte that needs none.
pub data_header_lem :
    (n : ℕ) (rest : List ℕ)
    → n < max_size
    → (n ≢ 1) ⊎ ((0 < length rest) × (data_imm_len_start ≤ get_or rest 0 0))
    → (is_list (header data_imm_len_start data_ind_len_zero n ++ rest) ≡ false)
      × (is_data (header data_imm_len_start data_ind_len_zero n ++ rest) ≡ true)
      × (is_single_byte (header data_imm_len_start data_ind_len_zero n ++ rest) ≡ false)
      × (payload_offset (header data_imm_len_start data_ind_len_zero n ++ rest)
          ≡ length (header data_imm_len_start data_ind_len_zero n))
      × (payload_length (header data_imm_len_start data_ind_len_zero n ++ rest) ≡ ok n)
unfolding header
data_header_lem n rest h good = elim (Bool-cases (ltb n 56)) [
  | inl short ↦
      let (a, b, c, d, e) =
        data_first (data_imm_len_start + n) rest (omega arith) (ground arith) (short_good good) in
      rw short (a, b, c, ground arith, ground arith)
  | inr long ↦
      let k = bytes_required n in
      let few = bytes_required-le n 8 (omega arith) in
      let some_bytes = holds_some k n (bytes_required_least n).0 (ground arith) in
      let (a, b, c, d, e) =
        data_first (data_ind_len_zero + k) (to_big_endian k n ++ rest) (omega arith)
          (omega (arith, few)) (inl (omega arith)) in
      rw long (
        a,
        b,
        c,
        ground (arith, few, some_bytes, length-to_big_endian k n),
        e ∙ long_case data_ind_len_zero data_imm_len_start n rest (ground arith) h,
      )
]
  where
    short_good :
        (n ≢ 1) ⊎ ((0 < length rest) × (data_imm_len_start ≤ get_or rest 0 0))
        → (data_imm_len_start + n ≢ data_imm_len_start + 1)
          ⊎ ((0 < length rest) × (data_imm_len_start ≤ get_or rest 0 0))
    short_good (inl many) = inl (omega arith)
    short_good (inr one) = inr one
