-- ===== src/Rlp/Reader/Elements.antt =====
-- What `RLP` of libdevcore/RLP.{h,cpp} reads of an encoded item, whatever follows the item.
use prog_po_w_miner.Common.{
  ℕ, ◌+◌, ◌≤◌, ◌<◌, ◌≡◌, ◌≢◌, ◌⊎◌, refl, ap, List, [], ◌∷◌, ◌++◌, Bool, true, false, ◌||◌, length,
  length-append, get_or, take, drop, ltb, leb, ltb→lt, Bool-cases, inl, inr, if◌then◌else◌, arith,
}
use prog_po_w_miner.Common.Result.{ok, ◌>>=◌}
use prog_po_w_miner.Rlp.Format.{
  undersize, Item, Items, bytes, list, header, encode_bytes, encode, encode_items, list_start,
  list_ind_len_zero, data_imm_len_start, data_ind_len_zero,
}
use prog_po_w_miner.Rlp.Reader.{
  cropped, is_null, is_data, is_list, is_single_byte, payload_length, payload_offset, payload,
  actual_size, require_good, length_by_type, check_too_big, check_too_small, make, fail, Strictness,
  size_as_encoded, to_bytes,
}
use prog_po_w_miner.Rlp.Reader.Headers.{max_size, list_header_lem, data_header_lem}
use prog_po_w_miner.Rlp.Stream.Refinement.{length-encode_bytes}
use mathlib.Core.List.{append_assoc, append-nil}

-- The parts of a view: kind, where the payload starts and how long it is.
pub record Parts (d : List ℕ) (start size : ℕ) : Type 0 where
  pub kind : (is_list d ≡ true) ⊎ (is_data d ≡ true)
  pub single : is_single_byte d ≡ false
  pub offset : payload_offset d ≡ start
  pub plen : payload_length d ≡ ok size

pub present : (d : List ℕ) → (is_list d ≡ true) ⊎ (is_data d ≡ true) → is_null d ≡ false
unfolding is_list is_data is_null
present [] (inl e) = cc
present [] (inr e) = cc
present (b ∷ d) e = ground arith

kind_found :
    (d : List ℕ) → (is_list d ≡ true) ⊎ (is_data d ≡ true) → (is_data d || is_list d) ≡ true
kind_found d (inl e) = ground arith
kind_found d (inr e) = rw e

drop-length : (xs ys : List ℕ) → drop (length xs) (xs ++ ys) ≡ ys
drop-length [] ys = refl
drop-length (x ∷ xs) ys = drop-length xs ys

take-length : (xs ys : List ℕ) → take (length xs) (xs ++ ys) ≡ xs
take-length [] ys = refl
take-length (x ∷ xs) ys = ap (◌∷◌ x) (take-length xs ys)

pub cropped_middle : (h p rest : List ℕ) → cropped (h ++ (p ++ rest)) (length h) (length p) ≡ p
unfolding cropped
cropped_middle h p rest = rw (a, b, c, drop-length h (p ++ rest), take-length p rest)
  where
    total : length (h ++ (p ++ rest)) ≡ length h + (length p + length rest)
    total = omega (arith, length-append h (p ++ rest), length-append p rest)

    a : leb (length h) (length (h ++ (p ++ rest))) ≡ true
    a = ground (arith, total)

    b : leb (length p) (length (h ++ (p ++ rest))) ≡ true
    b = ground (arith, total)

    c : leb (length h + length p) (length (h ++ (p ++ rest))) ≡ true
    c = ground (arith, total)

pub Parts-payload :
    (h p rest : List ℕ)
    → Parts (h ++ (p ++ rest)) (length h) (length p)
    → payload (h ++ (p ++ rest)) ≡ ok p
unfolding payload
Parts-payload h p rest v = rw (v.plen, fits, v.offset, cropped_middle h p rest)
  where
    fits : ltb (length (h ++ (p ++ rest))) (length p) ≡ false
    fits = ground (arith, length-append h (p ++ rest), length-append p rest)

Parts-actual_size :
    (d : List ℕ) (start size : ℕ) → Parts d start size → actual_size d ≡ ok (start + size)
unfolding actual_size
Parts-actual_size d start size v =
    rw (present d v.kind, v.single, kind_found d v.kind, v.plen, v.offset)

list-Parts :
    (xs : Items) (rest : List ℕ)
    → length (encode_items xs) < max_size
    → Parts
        (header list_start list_ind_len_zero (length (encode_items xs))
          ++ (encode_items xs ++ rest))
        (length (header list_start list_ind_len_zero (length (encode_items xs))))
        (length (encode_items xs))
list-Parts xs rest h =
    let (a, b, c, d, e) = list_header_lem (length (encode_items xs)) (encode_items xs ++ rest) h in
    record { kind = inl a; single = c; offset = d; plen = e }

-- A byte string is one small byte, or has a header.
abbrev pub Form : List ℕ → Type 0
Form bs =
    ((b : ℕ) × (bs ≡ b ∷ []) × (b < data_imm_len_start) × (encode_bytes bs ≡ b ∷ []))
    ⊎ ((encode_bytes bs ≡ header data_imm_len_start data_ind_len_zero (length bs) ++ bs)
        × ((length bs ≢ 1) ⊎ ((0 < length bs) × (data_imm_len_start ≤ get_or bs 0 0))))

pub form : (bs : List ℕ) → Form bs
unfolding encode_bytes header
form [] = inr (refl, inl (omega arith))
form (b ∷ []) = elim (Bool-cases (ltb b data_imm_len_start)) [
  | inl small ↦ inl (b, refl, ltb→lt _ _ small, rw small)
  | inr large ↦ inr (rw large, inr (omega arith, ground arith))
]
form (b ∷ c ∷ bs) = inr (refl, inl (omega arith))

widen :
    (bs rest : List ℕ)
    → (length bs ≢ 1) ⊎ ((0 < length bs) × (data_imm_len_start ≤ get_or bs 0 0))
    → (length bs ≢ 1) ⊎ ((0 < length (bs ++ rest)) × (data_imm_len_start ≤ get_or (bs ++ rest) 0 0))
widen bs rest (inl many) = inl many
widen [] rest (inr (some, high)) = absurd (omega arith)
widen (b ∷ bs) rest (inr (some, high)) = inr (omega arith, high)

pub data-Parts :
    (bs rest : List ℕ)
    → length bs < max_size
    → (length bs ≢ 1) ⊎ ((0 < length bs) × (data_imm_len_start ≤ get_or bs 0 0))
    → Parts
        (header data_imm_len_start data_ind_len_zero (length bs) ++ (bs ++ rest))
        (length (header data_imm_len_start data_ind_len_zero (length bs)))
        (length bs)
data-Parts bs rest h good =
    let (a, b, c, d, e) = data_header_lem (length bs) (bs ++ rest) h (widen bs rest good) in
    record { kind = inr b; single = c; offset = d; plen = e }

-- One small byte is read as it is.
pub single_lem :
    (b : ℕ) (rest : List ℕ)
    → b < data_imm_len_start
    → (actual_size (b ∷ rest) ≡ ok 1) × (to_bytes (b ∷ rest) ≡ ok (b ∷ []))
unfolding actual_size to_bytes payload payload_length payload_offset is_null is_single_byte is_data
    require_good length_by_type cropped
single_lem b rest h = (ground arith, ground arith)

-- The size of an encoded item is read from its header.
pub actual_size-encode :
    (x : Item) (rest : List ℕ)
    → length (encode x) < max_size
    → actual_size (encode x ++ rest) ≡ ok (length (encode x))
unfolding encode
actual_size-encode (list xs) rest h =
    let hd = header list_start list_ind_len_zero (length (encode_items xs)) in
    let size = length-append hd (encode_items xs) in
    rw (append_assoc hd (encode_items xs) rest, size)
      (Parts-actual_size _ _ _ (list-Parts xs rest (omega (arith, size))))
actual_size-encode (bytes bs) rest h = elim (form bs) [
  | inl (b, e, small, enc) ↦ rw (enc) ((single_lem b rest small).0)
  | inr (enc, good) ↦
      let hd = header data_imm_len_start data_ind_len_zero (length bs) in
      rw (enc, append_assoc hd bs rest, length-append hd bs)
        (Parts-actual_size _ _ _ (data-Parts bs rest (omega (arith, length-encode_bytes bs)) good))
]

pub payload-encode_list :
    (xs : Items) (rest : List ℕ)
    → length (encode (list xs)) < max_size
    → (is_list (encode (list xs) ++ rest) ≡ true)
      × (payload (encode (list xs) ++ rest) ≡ ok (encode_items xs))
unfolding encode
payload-encode_list xs rest h =
    let hd = header list_start list_ind_len_zero (length (encode_items xs)) in
    let bound : length (encode_items xs) < max_size =
      omega (arith, length-append hd (encode_items xs)) in
    rw (append_assoc hd (encode_items xs) rest) (
      (list_header_lem (length (encode_items xs)) (encode_items xs ++ rest) bound).0,
      Parts-payload hd (encode_items xs) rest (list-Parts xs rest bound),
    )

to_bytes_lem :
    (d bs : List ℕ)
    → is_data d ≡ true
    → payload d ≡ ok bs
    → payload_length d ≡ ok (length bs)
    → to_bytes d ≡ ok bs
unfolding to_bytes
to_bytes_lem d bs a b c = rw (a, b, c) (ap ok (take_all bs))
  where
    take_all : (xs : List ℕ) → take (length xs) xs ≡ xs
    take_all [] = refl
    take_all (x ∷ xs) = ap (◌∷◌ x) (take_all xs)

-- An encoded byte string is read back, whatever follows it, if its encoding is not too long.
pub to_bytes-encode :
    (bs rest : List ℕ)
    → length (encode (bytes bs)) < max_size
    → to_bytes (encode (bytes bs) ++ rest) ≡ ok bs
unfolding encode
to_bytes-encode bs rest h = elim (form bs) [
  | inl (b, e, small, enc) ↦ rw (enc, e) ((single_lem b rest small).1)
  | inr (enc, good) ↦
      let hd = header data_imm_len_start data_ind_len_zero (length bs) in
      let bound : length bs < max_size = omega (arith, length-encode_bytes bs) in
      let parts = data-Parts bs rest bound good in
      rw (enc, append_assoc hd bs rest)
        (to_bytes_lem _ bs ((data_header_lem (length bs) (bs ++ rest) bound (widen bs rest good)).1)
          (Parts-payload hd bs rest parts) parts.plen)
]

-- The constructor accepts an encoded item, at every strictness.
pub make-encode :
    (s : Strictness) (x : Item) → length (encode x) < max_size → make s (encode x) ≡ ok (encode x)
unfolding make check_too_big check_too_small fail
make-encode s x h = elim (Bool-cases s.fail_if_too_big) [
  | inl big ↦ rw (big, whole, below) (small s.fail_if_too_small)
  | inr any ↦ rw any (small s.fail_if_too_small)
]
  where
    whole : actual_size (encode x) ≡ ok (length (encode x))
    whole = rw append-nil at (actual_size-encode x [] h)

    below : ltb (length (encode x)) (length (encode x)) ≡ false
    below = ground arith

    small :
        (b : Bool)
        → (if b
            then (actual_size (encode x) >>= λ a.
                if ltb (length (encode x)) a then fail s undersize else ok (encode x))
            else ok (encode x))
          ≡ ok (encode x)
    small true = rw (whole, below)
    small false = refl

pub size_as_encoded-encode :
    (x : Item) (rest : List ℕ)
    → length (encode x) < max_size
    → size_as_encoded (encode x ++ rest) ≡ ok (length (encode x))
unfolding size_as_encoded make check_too_big check_too_small
size_as_encoded-encode x rest h =
    rw (actual_size-encode x rest h, enough) (actual_size-encode x rest h)
  where
    enough : ltb (length (encode x ++ rest)) (length (encode x)) ≡ false
    enough = ground (arith, length-append (encode x) rest)
