-- ===== src/Rlp/Lists/Termination.antt =====
-- The loop of `RLP::items` of libdevcore/RLP.{h,cpp} ends on every view, well-formed or not.
use prog_po_w_miner.Common.{
  ℕ, zero, suc, ◌+◌, ◌≤◌, ◌<◌, ◌≡◌, ◌⊎◌, refl, List, [], ◌∷◌, true, length, length-drop, drop, ltb,
  leb, Bool-cases, inl, inr, arith, some,
}
use prog_po_w_miner.Common.Result.{Result, ok, err}
use prog_po_w_miner.Rlp.Format.{RlpError, undersize}
use prog_po_w_miner.Rlp.Reader.{
  cropped_from, is_list, is_data, is_null, is_single_byte, payload, payload_offset, payload_length,
  size_as_encoded, make, check_too_big, check_too_small, actual_size, fail, length_size,
}
use prog_po_w_miner.Rlp.Lists.{items_loop, items}

Result-cases {ℓ} :
    {E : Type 0} {A : Type ℓ} (r : Result E A) → ((e : E) × (r ≡ err e)) ⊎ ((a : A) × (r ≡ ok a))
Result-cases (ok a) = inr (a, refl)
Result-cases (err e) = inl (e, refl)

-- A first byte that is there gives an item of at least one byte.
actual_size_view :
    (d : List ℕ)
    → 0 < length d
    → ((e : RlpError) × (actual_size d ≡ err e)) ⊎ ((n : ℕ) × (actual_size d ≡ ok n) × (0 < n))
unfolding actual_size is_null is_single_byte is_data is_list payload_offset length_size
actual_size_view [] h = absurd (omega arith)
actual_size_view (b ∷ d) h = elim (Bool-cases (ltb b 0x80)) [
  | inl small ↦ inr (1, ground (arith, small), omega arith)
  | inr large ↦ elim (Result-cases (payload_length (b ∷ d))) [
    | inl (e, f) ↦ inl (e, rw f (ground (arith, large)))
    | inr (n, f) ↦
        inr (payload_offset (b ∷ d) + n, rw f (ground (arith, large)), ground (arith, large))
  ]
]

-- What is skipped of a view that is not empty is not empty and lies in the view.
size_view :
    (d : List ℕ)
    → 0 < length d
    → ((e : RlpError) × (size_as_encoded d ≡ err e))
      ⊎ ((n : ℕ) × (size_as_encoded d ≡ ok n) × (0 < n) × (n ≤ length d))
unfolding size_as_encoded make check_too_big check_too_small fail
size_view d h = elim (actual_size_view d h) [
  | inl (e, f) ↦ inl (e, rw f refl)
  | inr (n, f, pos) ↦ elim (Bool-cases (ltb (length d) n)) [
    | inl short ↦ inl (undersize, rw (f, short) refl)
    | inr fits ↦ inr (n, rw (f, fits) f, pos, ground arith)
  ]
]

items_loop_total :
    (fuel : ℕ) (d : List ℕ) (i : ℕ)
    → length d ≤ fuel
    → (r : Result RlpError ℕ) × (items_loop fuel d i ≡ some r)
unfolding items_loop cropped_from
items_loop_total zero [] i h = (ok i, refl)
items_loop_total (suc fuel) [] i h = (ok i, refl)
items_loop_total zero (b ∷ d) i h = absurd (omega arith)
items_loop_total (suc fuel) (b ∷ d) i h = elim (size_view (b ∷ d) (omega arith)) [
  | inl (e, f) ↦ (err e, ground (arith, f))
  | inr (n, f, pos, fits) ↦
      let inside : leb n (length (b ∷ d)) ≡ true = ground arith in
      let (r, g) =
        items_loop_total fuel (drop n (b ∷ d)) (i + 1) (omega (arith, length-drop n (b ∷ d))) in
      (r, ground (arith, f, inside, g))
]

-- On every view the count of the items ends, with a number or with an exception.
pub items-total : (d : List ℕ) → (r : Result RlpError ℕ) × (items d ≡ some r)
unfolding items
items-total d = elim (Bool-cases (is_list d)) [
  | inl kind ↦ elim (Result-cases (payload d)) [
    | inl (e, f) ↦ (err e, rw (kind, f) refl)
    | inr (p, f) ↦ rw (kind, f) (items_loop_total (length p) p 0 (omega arith))
  ]
  | inr other ↦ (ok 0, rw other refl)
]
