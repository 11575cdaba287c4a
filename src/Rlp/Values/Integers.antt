-- ===== src/Rlp/Values/Integers.antt =====
-- `toInt` of libdevcore/RLP.h and `append` of RLPStream for integers of up to 32 bytes.
use prog_po_w_miner.Common.{
  ℕ, zero, suc, ◌+◌, ◌/◌, ◌%◌, ◌^◌, ◌<◌, ◌≤◌, ◌≡◌, ◌≢◌, ◌⊎◌, inl, inr, refl, sym, ap, ◌∙◌, List, [],
  ◌∷◌, ◌++◌, Bool, true, false, length, ltb, ltb→lt, ◌==◌, ==_iff, Bool-cases, arith,
}
use prog_po_w_miner.Common.Result.{ok, ◌>>=◌}
use prog_po_w_miner.DevCore.Endian.{
  to_big_endian, from_big_endian, bytes_required, to_compact_big_endian,
}
use prog_po_w_miner.DevCore.Endian.RoundTrip.{
  length-to_big_endian, bytes_required_least, bytes_required-le, from-to_compact_big_endian,
}
use prog_po_w_miner.Rlp.Format.{
  bytes, encode, encode_bytes, header, data_imm_len_start, data_ind_len_zero, data_imm_len_count,
}
use prog_po_w_miner.Rlp.Reader.{Strictness, is_null, is_list, is_data, require_good}
use prog_po_w_miner.Rlp.Reader.Elements.{form}
use prog_po_w_miner.Rlp.Stream.{
  Stream, push_int, push_int_header, push_integer, append_int, append_bytes,
}
use prog_po_w_miner.Rlp.Stream.Headers.{push_int_lem}
use prog_po_w_miner.Rlp.Stream.Refinement.{append_datum_lem}
use prog_po_w_miner.Rlp.Values.{nonzero_at, is_int, to_int}
use prog_po_w_miner.Rlp.Values.Hashes.{Reads, encode-Reads}
use native.Mathlib.Nat.{pow-suc}
use mathlib.Core.List.{append_assoc}

-- The bytes of an integer without leading zeros.
abbrev pub compact : ℕ → List ℕ
compact i = to_compact_big_endian i 0

compact_lem : (i : ℕ) → compact i ≡ to_big_endian (bytes_required i) i
unfolding to_compact_big_endian
compact_lem i = ap (λ (n : ℕ). to_big_endian n i) (omega arith)

first_byte :
    (n v : ℕ)
    → 256 ^ n ≤ v
    → v < 256 ^ suc n
    → (b : ℕ) × (bs : List ℕ) × (to_big_endian (suc n) v ≡ b ∷ bs) × (b ≢ 0)
unfolding to_big_endian
first_byte zero v l h = (v % 256, [], refl, omega (arith, l, h))
first_byte (suc n) v l h =
    let (b, bs, e, ne) =
      first_byte n (v / 256) (omega (arith, pow-suc 256 n, l))
        (omega (arith, pow-suc 256 (suc n), h)) in
    (b, bs ++ ((v % 256) ∷ []), ap (λ (xs : List ℕ). xs ++ ((v % 256) ∷ [])) e, ne)

-- The bytes of an integer: none for 0, else at most 32 of which the first is not 0.
abbrev Shape : ℕ → Type 0
Shape i =
    ((i ≡ 0) × (compact i ≡ []))
    ⊎ ((b : ℕ) × (bs : List ℕ) × (compact i ≡ b ∷ bs)
        × (b ≢ 0)
        × (length bs < 32)
        × (bytes_required i ≡ suc (length bs)))

positive : (i n : ℕ) → bytes_required i ≡ suc n → 0 < i
positive i n e = elim (Bool-cases (i == 0)) [
  | inl zeroth ↦ absurd (omega (arith, e, (bytes_required_least i).1 ((==_iff i 0).0 zeroth)))
  | inr some ↦ ground (arith, some)
]

Shape-by : (i k : ℕ) → i < 256 ^ 32 → bytes_required i ≡ k → Shape i
unfolding to_big_endian
Shape-by i zero h e = inl (
  omega (arith, (bytes_required_least i).0, ap (λ (n : ℕ). 256 ^ n) e),
  compact_lem i ∙ ap (λ (n : ℕ). to_big_endian n i) e,
)
Shape-by i (suc k) h e =
    let (held, none, low) = bytes_required_least i in
    let some : 0 < i = positive i k e in
    let (b, bs, split, ne) =
      first_byte k i (omega (arith, low some, ap (λ (n : ℕ). 256 ^ n) e, pow-suc 256 k))
        (omega (arith, held, ap (λ (n : ℕ). 256 ^ n) e)) in
    let size : suc (length bs) ≡ suc k = sym (ap length split) ∙ length-to_big_endian (suc k) i in
    inr (
      b,
      bs,
      compact_lem i ∙ ap (λ (n : ℕ). to_big_endian n i) e ∙ split,
      ne,
      omega (arith, size, e, bytes_required-le i 32 h),
      e ∙ sym size,
    )

shape : (i : ℕ) → i < 256 ^ 32 → Shape i
shape i h = Shape-by i (bytes_required i) h refl

from_compact : (i : ℕ) → i < 2 ^ 256 → from_big_endian 256 (compact i) ≡ i
from_compact i h = (from-to_compact_big_endian 256 0 i h).0

of_one_byte : (i b : ℕ) → i < 2 ^ 256 → b < 256 → compact i ≡ b ∷ [] → i ≡ b
unfolding from_big_endian
of_one_byte i b h hb e =
    sym (from_compact i h) ∙ ap (λ (bs : List ℕ). from_big_endian 256 bs) e ∙ omega (arith, hb)

length-compact : (i : ℕ) → length (compact i) ≡ bytes_required i
length-compact i = ap length (compact_lem i) ∙ length-to_big_endian (bytes_required i) i

small_compact : (i : ℕ) → 0 < i → i < 256 → compact i ≡ i ∷ []
unfolding to_big_endian
small_compact i p h =
    let one : bytes_required i ≡ 1 =
      omega (arith, bytes_required-le i 1 h, (bytes_required_least i).0, pow_one) in
    compact_lem i
    ∙ ap (λ (n : ℕ). to_big_endian n i) one
    ∙ ap (λ (b : ℕ). b ∷ []) (omega (arith, h))
  where
    pow_one : bytes_required i ≡ 0 → ⊥
    pow_one e = absurd (omega (arith, p, (bytes_required_least i).0, ap (λ (n : ℕ). 256 ^ n) e))

no_bytes : (i : ℕ) → i ≡ 0 → compact i ≡ []
unfolding to_big_endian
no_bytes i e = compact_lem i ∙ ap (λ (n : ℕ). to_big_endian n i) ((bytes_required_least i).1 e)

push_int_header_lem :
    (n : ℕ) (out : List ℕ)
    → n < data_imm_len_count
    → push_int_header n out ≡ ok (out ++ ((data_imm_len_start + n) ∷ []))
unfolding push_int_header
push_int_header_lem n out h = rw (short, byte) refl
  where
    short : ltb n data_imm_len_count ≡ true
    short = ground arith

    byte : (n + data_imm_len_start) % 256 ≡ data_imm_len_start + n
    byte = omega (arith, h)

short_header :
    (n : ℕ)
    → n < data_imm_len_count
    → header data_imm_len_start data_ind_len_zero n ≡ (data_imm_len_start + n) ∷ []
unfolding header
short_header n h = let short : ltb n data_imm_len_count ≡ true = ground arith in rw short refl

-- The encoding of an integer that is not a single small byte.
large_encoding :
    (i : ℕ)
    → i < 2 ^ 256
    → data_imm_len_start ≤ i
    → encode_bytes (compact i) ≡ (data_imm_len_start + bytes_required i) ∷ compact i
large_encoding i h large = elim (form (compact i)) [
  | inl (b, split, small, enc) ↦
      absurd (omega (arith, small, large, of_one_byte i b h (omega arith) split))
  | inr (enc, good) ↦
      enc
      ∙ ap (λ (bs : List ℕ). bs ++ compact i)
          (short_header (length (compact i))
              (omega (arith, length-compact i, bytes_required-le i 32 h))
            ∙ ap (λ (n : ℕ). (data_imm_len_start + n) ∷ []) (length-compact i))
]

push_large :
    (i : ℕ) (out : List ℕ)
    → i < 2 ^ 256
    → data_imm_len_start ≤ i
    → (push_int_header (bytes_required i) out >>= λ headed.
        ok (push_int headed i (bytes_required i)))
      ≡ ok (out ++ encode_bytes (compact i))
push_large i out h large =
    let first = data_imm_len_start + bytes_required i in
    let few : bytes_required i < data_imm_len_count = omega (arith, bytes_required-le i 32 h) in
    let bytes : first ∷ to_big_endian (bytes_required i) i ≡ encode_bytes (compact i) =
      ap (λ (bs : List ℕ). first ∷ bs) (sym (compact_lem i)) ∙ sym (large_encoding i h large) in
    rw (push_int_header_lem (bytes_required i) out few) (
      ap ok (
        push_int_lem (out ++ (first ∷ [])) i
        ∙ append_assoc out (first ∷ []) (to_big_endian (bytes_required i) i)
        ∙ ap (λ (bs : List ℕ). out ++ bs) bytes))

push_integer_lem :
    (i : ℕ) (out : List ℕ) → i < 2 ^ 256 → push_integer i out ≡ ok (out ++ encode_bytes (compact i))
unfolding push_integer encode_bytes
push_integer_lem i out h = elim (Bool-cases (i == 0)) [
  | inl none ↦ rw (none, no_bytes i ((==_iff i 0).0 none)) refl
  | inr some ↦ elim (Bool-cases (ltb i data_imm_len_start)) [
    | inl small ↦
        rw
          (
            some,
            small,
            small_compact i (ground (arith, some)) (omega (arith, ltb→lt _ _ small)),
            small,
          )
          refl
    | inr large ↦ rw (some, large) (push_large i out h (ground (arith, large)))
  ]
]

-- An integer of up to 256 bits is written as the byte string of its bytes without leading zeros.
pub append_int-compact :
    (i : ℕ) (s : Stream) → i < 2 ^ 256 → append_int i s ≡ append_bytes (compact i) false s
unfolding append_int append_bytes
append_int-compact i s h =
    rw
      (
        push_integer_lem i s.out h,
        append_datum_lem (compact i) s (omega (arith, length-compact i, bytes_required-le i 32 h)),
      )
      refl

datum_no_list : (d : List ℕ) → is_data d ≡ true → is_list d ≡ false
unfolding is_data is_list
datum_no_list d h = ground arith

is_int_large :
    (n b : ℕ) (bs : List ℕ)
    → 0 < n
    → n < data_imm_len_count
    → b ≢ 0
    → require_good ((data_imm_len_start + n) ∷ b ∷ bs) ≡ ok tt
    → is_int ((data_imm_len_start + n) ∷ b ∷ bs) ≡ ok true
unfolding is_int nonzero_at is_null
is_int_large n b bs p h ne good = rw good (ground arith)

is_int_small :
    (b : ℕ)
    → 0 < b
    → b < data_imm_len_start
    → require_good (b ∷ []) ≡ ok tt
    → is_int (b ∷ []) ≡ ok true
unfolding is_int is_null
is_int_small b p h good = rw good (ground arith)

is_int_zero : is_int (data_imm_len_start ∷ []) ≡ ok true
unfolding is_int is_null require_good
is_int_zero = refl

encode_small : (b : ℕ) → b < data_imm_len_start → encode_bytes (b ∷ []) ≡ b ∷ []
unfolding encode_bytes
encode_small b h = let small : ltb b data_imm_len_start ≡ true = ground arith in rw small refl

encode_nothing : encode_bytes [] ≡ data_imm_len_start ∷ []
unfolding encode_bytes
encode_nothing = refl

is_int-encode :
    (i : ℕ)
    → i < 2 ^ 256
    → require_good (encode_bytes (compact i)) ≡ ok tt
    → is_int (encode_bytes (compact i)) ≡ ok true
is_int-encode i h good = elim (shape i h) [
  | inl (none, nil) ↦ rw (nil, encode_nothing) is_int_zero
  | inr (b, bs, split, ne, few, size) ↦ elim (Bool-cases (ltb i data_imm_len_start)) [
    | inl small ↦
        let some : 0 < i = positive i (length bs) size in
        let below : i < data_imm_len_start = ltb→lt _ _ small in
        let enc : encode_bytes (compact i) ≡ i ∷ [] =
          ap encode_bytes (small_compact i some (omega (arith, below))) ∙ encode_small i below in
        rw enc (is_int_small i some below (rw enc at good))
    | inr large ↦
        let enc : encode_bytes (compact i) ≡ (data_imm_len_start + bytes_required i) ∷ b ∷ bs =
          large_encoding i h (ground (arith, large))
          ∙ ap (λ (xs : List ℕ). (data_imm_len_start + bytes_required i) ∷ xs) split in
        rw enc (
          is_int_large (bytes_required i) b bs (omega (arith, size)) (omega (arith, size, few)) ne
            (rw enc at good))
  ]
]

pub length-encode_short :
    (bs : List ℕ) → length bs < data_imm_len_count → length (encode_bytes bs) ≤ suc (length bs)
unfolding encode_bytes header
length-encode_short [] h = omega arith
length-encode_short (b ∷ []) h = ground arith
length-encode_short (b ∷ c ∷ bs) h =
    let short : ltb (length (b ∷ c ∷ bs)) data_imm_len_count ≡ true = ground arith in
    rw short (omega arith)

pub to_int-encode :
    (i : ℕ) (allow : Bool) (s : Strictness)
    → i < 2 ^ 256
    → to_int 256 32 allow s (encode (bytes (compact i))) ≡ ok i
unfolding to_int encode
to_int-encode i allow s h =
    let few : bytes_required i ≤ 32 = bytes_required-le i 32 h in
    let r : Reads (encode_bytes (compact i)) (compact i) = encode-Reads (compact i) (
      omega (
        arith,
        few,
        length-compact i,
        length-encode_short (compact i) (omega (arith, few, length-compact i)),
      )) in
    let fits : ltb 32 (length (compact i)) ≡ false = ground (arith, few, length-compact i) in
    rw
      (
        r.good,
        is_int-encode i h r.good,
        datum_no_list _ r.datum,
        r.present,
        r.content,
        fits,
        from_compact i h,
      )
      refl
