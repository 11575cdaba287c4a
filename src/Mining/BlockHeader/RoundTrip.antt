-- ===== src/Mining/BlockHeader/RoundTrip.antt =====
-- Block headers of libethcore/BlockHeader.cpp through RLP: what is written is the encoding of a list of
-- the fields, and a header is read back from it.
use prog_po_w_miner.Common.{
  ℕ, ◌-◌, ◌^◌, ◌<◌, ◌≤◌, ◌≡◌, ◌⊎◌, inl, inr, refl, ap, ◌∙◌, List, [], true, false, length,
  length-append, ltb, ◌==◌, if◌then◌else◌, arith,
}
use prog_po_w_miner.Common.Result.{Result, ok, err, ◌>>=◌}
use prog_po_w_miner.Rlp.Format.{
  RlpError, Item, Items, bytes, list, nil, cons, encode, encode_items, count,
}
use prog_po_w_miner.Rlp.Reader.{very_strict, is_list}
use prog_po_w_miner.Rlp.Reader.Headers.{max_size}
use prog_po_w_miner.Rlp.Reader.Elements.{make-encode, to_bytes-encode, payload-encode_list}
use prog_po_w_miner.Rlp.Lists.{Cache, new_cache}
use prog_po_w_miner.Rlp.Lists.Access.{
  items_from, head_bytes, Cached, at-encode, length-items_from, length-encode_items,
}
use prog_po_w_miner.Rlp.Stream.{Stream, empty, append_list, append_bytes, append_int, finish}
use prog_po_w_miner.Rlp.Stream.Refinement.{write_item, write_items, finish-write_item}
use prog_po_w_miner.Rlp.Values.Hashes.{to_hash-encode}
use prog_po_w_miner.Rlp.Values.Integers.{compact, append_int-compact, to_int-encode}
use prog_po_w_miner.Mining.BlockHeader.{
  Header, invalid_number, too_much_gas_used, basic_fields, stream_rlp_fields, written, thrown,
  hash_field, int_field, bytes_field, read_fields, populate_from_header, list_item, extract_header,
  from_block,
}
use mathlib.Core.List.{append-nil}
use mathlib.Core.Path.{fun_ext}

-- The fields as items of the format.
unfoldable pub fields : Header → Items
fields h = cons (bytes h.parent_hash) (
    cons (bytes h.sha3_uncles) (
      cons (bytes h.coinbase_address) (
        cons (bytes h.state_root) (
          cons (bytes h.transactions_root) (
            cons (bytes h.receipts_root) (
              cons (bytes h.log_bloom) (
                cons (bytes (compact h.difficulty)) (
                  cons (bytes (compact h.number)) (
                    cons (bytes (compact h.gas_limit)) (
                      cons (bytes (compact h.gas_used)) (
                        cons (bytes (compact h.timestamp))
                          (cons (bytes h.extra_data) nil))))))))))))

-- The sizes of a header's fields.
pub record IsSized (h : Header) : Type 0 where
  pub parent : length h.parent_hash ≡ 32
  pub uncles : length h.sha3_uncles ≡ 32
  pub coinbase : length h.coinbase_address ≡ 20
  pub state : length h.state_root ≡ 32
  pub transactions : length h.transactions_root ≡ 32
  pub receipts : length h.receipts_root ≡ 32
  pub bloom : length h.log_bloom ≡ 256
  pub difficulty : h.difficulty < 2 ^ 256
  pub number : h.number < 2 ^ 256
  pub limit : h.gas_limit < 2 ^ 256
  pub used : h.gas_used < 2 ^ 256
  pub time : h.timestamp < 2 ^ 256
  pub size : length (encode (list (fields h))) < max_size

-- Items written one after another.
write_left : Items → Result RlpError Stream → Result RlpError Stream
write_left nil m = m
write_left (cons x xs) m = write_left xs (m >>= write_item x)

write_left_lem :
    (xs : Items) (m : Result RlpError Stream) → write_left xs m ≡ (m >>= write_items xs)
unfolding write_left write_items
write_left_lem nil (ok s) = refl
write_left_lem nil (err e) = refl
write_left_lem (cons x xs) (ok s) = write_left_lem xs (write_item x s)
write_left_lem (cons x xs) (err e) = write_left_lem xs (err e)

int_item : (i : ℕ) → i < 2 ^ 256 → append_int i ≡ append_bytes (compact i) false
int_item i h = fun_ext (λ s. append_int-compact i s h)

stream_fields_lem :
    (h : Header) (m : Result RlpError Stream)
    → IsSized h
    → (m >>= stream_rlp_fields h) ≡ write_left (fields h) m
unfolding stream_rlp_fields write_left fields write_item
stream_fields_lem h (err e) v = refl
stream_fields_lem h (ok s) v =
    rw
      (
        int_item h.difficulty v.difficulty,
        int_item h.number v.number,
        int_item h.gas_limit v.limit,
        int_item h.gas_used v.used,
        int_item h.timestamp v.time,
      )
      refl

-- What is written for the hash of a header is the encoding of its fields.
pub written-encode : (h : Header) → IsSized h → written h ≡ ok (encode (list (fields h)))
unfolding written fields write_item count
written-encode h v =
    ap (λ (m : Result RlpError Stream). m >>= finish)
      (stream_fields_lem h (append_list basic_fields empty) v
        ∙ write_left_lem (fields h) (append_list basic_fields empty))
    ∙ finish-write_item (list (fields h)) (omega (arith, v.size))

length-head_bytes : (xs : Items) → length (head_bytes xs) ≤ length (encode_items xs)
unfolding head_bytes encode
length-head_bytes nil = omega arith
length-head_bytes (cons x xs) = omega (arith, length-append (encode x) (encode_items xs))

module _ (xs : Items) (bound : length (encode (list xs)) < max_size) where
  -- An item of the list is shorter than the whole encoding.
  item_small :
      (i : ℕ) (x : Item) → head_bytes (items_from i xs) ≡ encode x → length (encode x) < max_size
  item_small i x e = omega (
    arith,
    ap length e,
    length-head_bytes (items_from i xs),
    length-items_from i xs,
    length-encode_items xs bound,
  )

  abbrev Fresh : Cache → Type 0
  Fresh c = (c ≡ new_cache) ⊎ Cached xs c

  -- A field at an index is read as what stands there, and the cache stays right.
  hash_field_lem :
      (i size : ℕ) (bs : List ℕ) (c : Cache)
      → i < 2 ^ 64 - 1
      → head_bytes (items_from i xs) ≡ encode (bytes bs)
      → length bs ≡ size
      → Fresh c
      → (c' : Cache) × (hash_field (encode (list xs)) i size c ≡ ok (bs, c')) × Fresh c'
  unfolding hash_field
  hash_field_lem i size bs c l e same f =
      let (c', found, k) = at-encode xs i c bound l f in
      let whole : (length bs == size) ≡ true = ground (arith, same) in
      (c', rw (found, e, to_hash-encode size bs (item_small i (bytes bs) e), whole) refl, inr k)

  int_field_lem :
      (i n : ℕ) (c : Cache)
      → i < 2 ^ 64 - 1
      → head_bytes (items_from i xs) ≡ encode (bytes (compact n))
      → n < 2 ^ 256
      → Fresh c
      → (c' : Cache) × (int_field (encode (list xs)) i c ≡ ok (n, c')) × Fresh c'
  unfolding int_field
  int_field_lem i n c l e small f =
      let (c', found, k) = at-encode xs i c bound l f in
      (
        c',
        rw
            (
              found,
              e,
              to_int-encode n false (record very_strict { fail_if_too_small = false }) small,
            )
            refl,
        inr k,
      )

  bytes_field_lem :
      (i : ℕ) (bs : List ℕ) (c : Cache)
      → i < 2 ^ 64 - 1
      → head_bytes (items_from i xs) ≡ encode (bytes bs)
      → Fresh c
      → (c' : Cache) × (bytes_field (encode (list xs)) i c ≡ ok (bs, c')) × Fresh c'
  unfolding bytes_field
  bytes_field_lem i bs c l e f =
      let (c', found, k) = at-encode xs i c bound l f in
      (
        c',
        rw (found, e, (rw append-nil at (to_bytes-encode bs [] (item_small i (bytes bs) e)))) refl,
        inr k,
      )

read_fields_lem :
    (h : Header)
    → IsSized h
    → read_fields (encode (list (fields h))) ≡ ok (record h { kept_hash = 0; kept_boundary = 0 })
unfolding read_fields fields items_from head_bytes
read_fields_lem h v =
    let xs = fields h in
    let b = v.size in
    let (c0, e0, k0) =
      hash_field_lem xs b 0 32 h.parent_hash new_cache (omega arith) refl v.parent (inl refl) in
    let (c1, e1, k1) = hash_field_lem xs b 1 32 h.sha3_uncles c0 (omega arith) refl v.uncles k0 in
    let (c2, e2, k2) =
      hash_field_lem xs b 2 20 h.coinbase_address c1 (omega arith) refl v.coinbase k1 in
    let (c3, e3, k3) = hash_field_lem xs b 3 32 h.state_root c2 (omega arith) refl v.state k2 in
    let (c4, e4, k4) =
      hash_field_lem xs b 4 32 h.transactions_root c3 (omega arith) refl v.transactions k3 in
    let (c5, e5, k5) =
      hash_field_lem xs b 5 32 h.receipts_root c4 (omega arith) refl v.receipts k4 in
    let (c6, e6, k6) = hash_field_lem xs b 6 256 h.log_bloom c5 (omega arith) refl v.bloom k5 in
    let (c7, e7, k7) = int_field_lem xs b 7 h.difficulty c6 (omega arith) refl v.difficulty k6 in
    let (c8, e8, k8) = int_field_lem xs b 8 h.number c7 (omega arith) refl v.number k7 in
    let (c9, e9, k9) = int_field_lem xs b 9 h.gas_limit c8 (omega arith) refl v.limit k8 in
    let (c10, e10, k10) = int_field_lem xs b 10 h.gas_used c9 (omega arith) refl v.used k9 in
    let (c11, e11, k11) = int_field_lem xs b 11 h.timestamp c10 (omega arith) refl v.time k10 in
    let (c12, e12, k12) = bytes_field_lem xs b 12 h.extra_data c11 (omega arith) refl k11 in
    rw (e0, e1, e2, e3, e4, e5, e6, e7, e8, e9, e10, e11, e12) refl

-- A header of a block with any transactions and uncles.
abbrev pub block_of : Header → Items → Items → Items
block_of h transactions uncles =
    cons (list (fields h)) (cons (list transactions) (cons (list uncles) nil))

list_item_lem :
    (xs ys : Items) (i : ℕ) (c : Cache)
    → length (encode (list xs)) < max_size
    → i < 2 ^ 64 - 1
    → head_bytes (items_from i xs) ≡ encode (list ys)
    → (c ≡ new_cache) ⊎ Cached xs c
    → (c' : Cache) × (list_item (encode (list xs)) i c ≡ ok (encode (list ys), c'))
      × ((c' ≡ new_cache) ⊎ Cached xs c')
unfolding list_item thrown
list_item_lem xs ys i c b l e f =
    let (c', found, k) = at-encode xs i c b l f in
    let listed : is_list (encode (list ys)) ≡ true =
      rw append-nil at ((payload-encode_list ys [] (item_small xs b i (list ys) e)).0) in
    (c', rw (found, e, listed) refl, inr k)

extract_header_lem :
    (h : Header) (ts us : Items)
    → length (encode (list (block_of h ts us))) < max_size
    → extract_header (encode (list (block_of h ts us))) ≡ ok (encode (list (fields h)))
unfolding extract_header items_from head_bytes thrown
extract_header_lem h ts us b =
    let xs = block_of h ts us in
    let whole = make-encode very_strict (list xs) b in
    let listed : is_list (encode (list xs)) ≡ true =
      rw append-nil at ((payload-encode_list xs [] b).0) in
    let (c0, e0, k0) = list_item_lem xs (fields h) 0 new_cache b (omega arith) refl (inl refl) in
    let (c1, e1, k1) = list_item_lem xs ts 1 c0 b (omega arith) refl k0 in
    let (c2, e2, k2) = list_item_lem xs us 2 c1 b (omega arith) refl k1 in
    rw (whole, listed, e0, e1, e2) refl

-- From the encoding of a block its header is read back, with nothing kept, if the number of the block
-- fits 32 bits and the gas that is used is within its limit, and else the exception for that is thrown.
pub from_block-encode :
    (h : Header) (transactions uncles : Items)
    → IsSized h
    → length (encode (list (block_of h transactions uncles))) < max_size
    → from_block (encode (list (block_of h transactions uncles))) ≡ (
        if ltb (2 ^ 32 - 1) h.number
        then err invalid_number
        else if ltb h.gas_limit h.gas_used
        then err too_much_gas_used
        else ok (record h { kept_hash = 0; kept_boundary = 0 }))
unfolding from_block populate_from_header thrown
from_block-encode h ts us v b = rw (extract_header_lem h ts us b, read_fields_lem h v) refl
