-- ===== src/Rlp/Values/Hashes.antt =====
-- `toHash` of libdevcore/RLP.h on an encoded byte string.
use prog_po_w_miner.Common.{
  ℕ, ◌-◌, ◌<◌, ◌≡◌, inl, inr, refl, ap, min, List, [], ◌∷◌, ◌++◌, true, false, not, ◌&&◌, ◌||◌,
  length, take, replicate, ltb, ◌==◌, ==_iff, if◌then◌else◌, Bool-cases, arith,
}
use prog_po_w_miner.Common.Result.{Result, ok, err, ◌>>=◌}
use prog_po_w_miner.Rlp.Format.{
  RlpError, bad_cast, bytes, encode, header, data_imm_len_start, data_ind_len_zero,
}
use prog_po_w_miner.Rlp.Reader.{
  very_strict, is_null, is_data, is_single_byte, require_good, payload, payload_length,
  payload_offset, length_by_type, cropped,
}
use prog_po_w_miner.Rlp.Reader.Headers.{max_size, data_header_lem}
use prog_po_w_miner.Rlp.Reader.Elements.{form, present, data-Parts, Parts-payload}
use prog_po_w_miner.Rlp.Stream.Refinement.{length-encode_bytes}
use prog_po_w_miner.Rlp.Values.{fail_cast, to_hash}
use mathlib.Core.List.{append-nil}

-- What a conversion asks of the view of an encoded byte string.
pub record Reads (d bs : List ℕ) : Type 0 where
  pub good : require_good d ≡ ok tt
  pub present : is_null d ≡ false
  pub datum : is_data d ≡ true
  pub content : payload d ≡ ok bs

good_of_length :
    (d : List ℕ) (l : ℕ) → is_null d ≡ false → payload_length d ≡ ok l → require_good d ≡ ok tt
unfolding payload_length
good_of_length d l n e =
    let read : (require_good d >>= λ _. length_by_type d) ≡ ok l = ground (arith, n, e) in
    succeeded (require_good d) read
  where
    succeeded : (r : Result RlpError (Unit {0})) → (r >>= λ _. length_by_type d) ≡ ok l → r ≡ ok tt
    succeeded (ok u) q = refl
    succeeded (err x) q = absurd (cc)

single-Reads : (b : ℕ) → b < data_imm_len_start → Reads (b ∷ []) (b ∷ [])
unfolding require_good is_null is_data payload payload_length payload_offset is_single_byte
    length_by_type cropped
single-Reads b h = record {
  good = ground arith;
  present = refl;
  datum = ground arith;
  content = ground arith;
}

pub encode-Reads :
    (bs : List ℕ) → length (encode (bytes bs)) < max_size → Reads (encode (bytes bs)) bs
unfolding encode
encode-Reads bs h = elim (form bs) [
  | inl (b, e, small, enc) ↦ rw (enc, e) (single-Reads b small)
  | inr (enc, good) ↦
      let hd = header data_imm_len_start data_ind_len_zero (length bs) in
      let bound : length bs < max_size = omega (arith, length-encode_bytes bs) in
      let (listed, datum, single, offset, plen) = data_header_lem (length bs) bs bound good in
      let here : is_null (hd ++ bs) ≡ false = present (hd ++ bs) (inr datum) in
      rw enc (record {
        good = good_of_length (hd ++ bs) (length bs) here plen;
        present = here;
        datum = datum;
        content = rw append-nil at (Parts-payload hd bs [] (data-Parts bs [] bound good));
      })
]

take_all : (xs : List ℕ) → take (length xs) xs ≡ xs
take_all [] = refl
take_all (x ∷ xs) = ap (◌∷◌ x) (take_all xs)

abbrev converted : ℕ → List ℕ → Result RlpError (List ℕ)
converted size bs =
    if not true || ltb size (length bs) && true || ltb (length bs) size && true
    then err bad_cast
    else ok (replicate (size - min size (length bs)) 0 ++ take (min size (length bs)) bs)

whole_hash :
    (size : ℕ) (bs : List ℕ)
    → length bs ≡ size
    → converted size bs ≡ (if length bs == size then ok bs else err bad_cast)
whole_hash size bs e = rw (← e, no_less, itself, no_rest, all, take_all bs) refl
  where
    no_less : ltb (length bs) (length bs) ≡ false
    no_less = ground arith

    itself : (length bs == length bs) ≡ true
    itself = ground arith

    all : min (length bs) (length bs) ≡ length bs
    all = omega arith

    no_rest : length bs - min (length bs) (length bs) ≡ 0
    no_rest = omega arith

-- A byte string of the size of a hash is read back as that hash, and at the strictest one of another size
-- is refused.
pub to_hash-encode :
    (size : ℕ) (bs : List ℕ)
    → length (encode (bytes bs)) < max_size
    → to_hash size very_strict (encode (bytes bs))
      ≡ (if length bs == size then ok bs else err bad_cast)
unfolding to_hash fail_cast
to_hash-encode size bs h =
    let r = encode-Reads bs h in
    rw (r.good, r.content, r.datum)
      (elim (Bool-cases (length bs == size)) [
        | inl same ↦ whole_hash size bs ((==_iff (length bs) size).0 same)
        | inr other ↦ ground (arith, other)
      ])
