-- ===== src/Rlp/Stream/Refinement.antt =====
-- `RLPStream` of libdevcore/RLP.{h,cpp} against the format: writing an item through the stream appends
-- its encoding.
use prog_po_w_miner.Common.{
  ℕ, suc, ◌+◌, ◌%◌, ◌^◌, ◌≤◌, ◌<◌, ◌≡◌, refl, ap, List, [], ◌∷◌, ◌++◌, length, length-append, ltb,
  ltb→lt, Bool-cases, false, inl, inr, arith,
}
use prog_po_w_miner.Common.Result.{Result, ok, err, ◌>>=◌}
use prog_po_w_miner.Rlp.Format.{
  RlpError, Item, Items, bytes, list, nil, cons, header, encode_bytes, encode, encode_items, count,
  list_start, list_ind_len_zero, data_imm_len_start, data_ind_len_zero, data_imm_len_count,
}
use prog_po_w_miner.Rlp.Stream.{
  Stream, empty, note_loop, note_appended, append_raw, append_list_raw, append_list, append_long,
  append_datum, append_bytes, finish,
}
use prog_po_w_miner.Rlp.Stream.Headers.{push_count_lem, close_list_lem}
use mathlib.Core.List.{append_assoc, append-nil}

-- How a client writes an item: a list is announced with its number of items, which follow.
unfoldable mutual
  pub write_item : Item → Stream → Result RlpError Stream
  write_item (bytes bs) s = append_bytes bs false s
  write_item (list xs) s = append_list (count xs) s >>= write_items xs

  pub write_items : Items → Stream → Result RlpError Stream
  write_items nil s = ok s
  write_items (cons x xs) s = write_item x s >>= write_items xs

append_long_lem :
    (bs : List ℕ) (s : Stream)
    → length bs < 2 ^ 64
    → append_long bs s
      ≡ ok (record s {
        out = s.out ++ (header data_imm_len_start data_ind_len_zero (length bs) ++ bs);
      })
unfolding append_long append_raw note_appended header
append_long_lem bs s h = elim (Bool-cases (ltb (length bs) data_imm_len_count)) [
  | inl short ↦
      let in_byte : (length bs + data_imm_len_start) % 256 ≡ data_imm_len_start + length bs =
        omega (arith, ltb→lt _ _ short) in
      rw (short, in_byte) (appended (append_assoc s.out _ bs))
  | inr long ↦
      rw (long, push_count_lem s.out (length bs) data_ind_len_zero h (omega arith))
        (appended (append_assoc s.out _ bs))
]
  where
    appended :
        {a b : List ℕ}
        → a ≡ b
        → ◌≡◌ {A = Result RlpError Stream} (ok (record s { out = a })) (ok (record s { out = b }))
    appended e = ap (λ (o : List ℕ). ok (record s { out = o })) e

pub append_datum_lem :
    (bs : List ℕ) (s : Stream)
    → length bs < 2 ^ 64
    → append_datum bs s ≡ ok (record s { out = s.out ++ encode_bytes bs })
unfolding append_datum encode_bytes header
append_datum_lem [] s h = append_long_lem [] s h
append_datum_lem (b ∷ []) s h = elim (Bool-cases (ltb b data_imm_len_start)) [
  | inl small ↦ rw small
  | inr large ↦ rw large (append_long_lem (b ∷ []) s h)
]
append_datum_lem (b ∷ c ∷ bs) s h = append_long_lem (b ∷ c ∷ bs) s h

-- Closing the innermost list when its last item was written.
last_item :
    (out body : List ℕ) (stack : List (ℕ × ℕ))
    → length body < 2 ^ 64
    → note_loop (out ++ body) ((1, length out) ∷ stack) 1
      ≡ note_loop (out ++ (header list_start list_ind_len_zero (length body) ++ body)) stack 1
unfolding note_loop
last_item out body stack h = rw (close_list_lem out body h)

-- More items are to come.
item_noted :
    (out : List ℕ) (n p : ℕ) (stack : List (ℕ × ℕ))
    → note_loop out ((suc (suc n), p) ∷ stack) 1
      ≡ ok (record { out = out; stack = (suc n, p) ∷ stack })
unfolding note_loop
item_noted out n p stack = ground arith

bind_ok : (r : Result RlpError Stream) → (r >>= λ s. ok s) ≡ r
bind_ok (ok s) = refl
bind_ok (err e) = refl

announced :
    (n : ℕ) (s : Stream)
    → append_list (suc n) s ≡ ok (record s { stack = (suc n, length s.out) ∷ s.stack })
unfolding append_list
announced n s = ground arith

empty_list : (s : Stream) → append_list_raw [] s ≡ note_loop (s.out ++ (list_start ∷ [])) s.stack 1
unfolding append_list_raw append_raw note_appended
empty_list s = rw append-nil

pub length-encode_bytes : (bs : List ℕ) → length bs ≤ length (encode_bytes bs)
unfolding encode_bytes
length-encode_bytes [] = omega arith
length-encode_bytes (b ∷ []) = ground arith
length-encode_bytes (b ∷ c ∷ bs) = omega (
  arith,
  length-append (header data_imm_len_start data_ind_len_zero (length (b ∷ c ∷ bs))) (b ∷ c ∷ bs),
)

mutual
  unfolding write_item write_items encode count append_list append_bytes note_appended header

  write_item_lem :
      (x : Item) (s : Stream)
      → length (encode x) < 2 ^ 64
      → write_item x s ≡ note_loop (s.out ++ encode x) s.stack 1
  write_item_lem (bytes bs) s h = rw (append_datum_lem bs s (omega (arith, length-encode_bytes bs)))
  write_item_lem (list nil) s h = rw (bind_ok (append_list_raw [] s)) (empty_list s)
  write_item_lem (list (cons x xs)) s h = rw (announced (count xs) s) (
      rw append-nil at (
        write_items_lem (cons x xs) (count xs) s.out [] s.stack refl (
          omega (
            arith,
            length-append
                (header list_start list_ind_len_zero (length (encode x ++ encode_items xs)))
                (encode x ++ encode_items xs),
          ))))

  write_items_lem :
      (xs : Items) (n : ℕ) (out body : List ℕ) (stack : List (ℕ × ℕ))
      → count xs ≡ suc n
      → length (body ++ encode_items xs) < 2 ^ 64
      → write_items xs (record { out = out ++ body; stack = (suc n, length out) ∷ stack })
        ≡ note_loop
            (out
              ++ (header list_start list_ind_len_zero (length (body ++ encode_items xs))
                  ++ (body ++ encode_items xs)))
            stack
            1
  write_items_lem nil n out body stack e h = absurd (omega arith)
  write_items_lem (cons x nil) n out body stack e h =
      let only : n ≡ 0 = omega (arith, e) in
      let start : Stream = record { out = out ++ body; stack = (suc n, length out) ∷ stack } in
      let h' : length (body ++ encode x) < 2 ^ 64 = rw append-nil at h in
      rw
        (
          bind_ok (write_item x start),
          write_item_lem x start (omega (arith, length-append body (encode x), h')),
          only,
          append-nil,
          append_assoc out body (encode x),
        )
        (last_item out (body ++ encode x) stack h')
  write_items_lem (cons x (cons y ys)) n out body stack e h =
      let more : n ≡ suc (count ys) = omega (arith, e) in
      let start : Stream = record { out = out ++ body; stack = (suc n, length out) ∷ stack } in
      let rest = encode_items (cons y ys) in
      rw
        (
          write_item_lem x start
              (omega (arith, length-append body (encode x ++ rest), length-append (encode x) rest)),
          more,
          item_noted ((out ++ body) ++ encode x) (count ys) (length out) stack,
          append_assoc out body (encode x),
          ← append_assoc body (encode x) rest,
        )
        (write_items_lem (cons y ys) (count ys) out (body ++ encode x) stack refl
          (rw append_assoc h))

-- An item that is written to a new stream gives its encoding, if that is shorter than 2 ^ 64 bytes.
pub finish-write_item :
    (x : Item) → length (encode x) < 2 ^ 64 → (write_item x empty >>= finish) ≡ ok (encode x)
unfolding note_loop finish
finish-write_item x h = rw (write_item_lem x empty h)

-- Inside a list that has room, an item is appended as its encoding and counted, and nothing else
-- changes but that the list is closed when it was the last.
write_item-append :
    (x : Item) (s : Stream)
    → length (encode x) < 2 ^ 64
    → write_item x s ≡ append_raw (encode x) 1 s
unfolding append_raw note_appended
write_item-append x s h = write_item_lem x s h
