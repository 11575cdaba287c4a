-- ===== src/Rlp/Stream/Headers.antt =====
-- The headers that `RLPStream` of libdevcore/RLP.cpp writes are those of the format.
use prog_po_w_miner.Common.{
  ℕ, zero, suc, ◌+◌, ◌-◌, ◌/◌, ◌%◌, ◌^◌, ◌≤◌, ◌<◌, ◌≡◌, refl, ap, ◌∙◌, List, [], ◌∷◌, ◌++◌, length,
  length-append, length-replicate, length-take, set, take, drop, replicate, ◌==◌, ltb, Bool-cases,
  inl, inr, arith, false, true, leb, ltb→lt,
}
use prog_po_w_miner.Common.Result.{ok}
use prog_po_w_miner.DevCore.Endian.{to_big_endian, bytes_required}
use prog_po_w_miner.DevCore.Endian.RoundTrip.{Least, bytes_required_least, bytes_required-le}
use prog_po_w_miner.Rlp.Format.{header, list_start, list_ind_len_zero}
use prog_po_w_miner.Rlp.Stream.{write_back, push_int, push_count, close_list}
use mathlib.Core.List.{append_assoc, append-nil}
use native.Mathlib.Nat.{pow-suc, one-le-pow, add_comm}

-- The last element of a list that has one.
snoc_view :
    (xs : List ℕ) (k : ℕ)
    → length xs ≡ suc k
    → (front : List ℕ) × (z : ℕ) × (xs ≡ front ++ (z ∷ [])) × (length front ≡ k)
snoc_view [] k e = absurd (omega arith)
snoc_view (x ∷ []) zero e = ([], x, refl, refl)
snoc_view (x ∷ []) (suc k) e = absurd (omega arith)
snoc_view (x ∷ y ∷ xs) zero e = absurd (omega arith)
snoc_view (x ∷ y ∷ xs) (suc k) e =
    let (front, z, p, q) = snoc_view (y ∷ xs) k (omega arith) in
    (x ∷ front, z, ap (◌∷◌ x) p, omega arith)

-- A write just behind a prefix.
set_behind :
    (pre post : List ℕ) (z v at : ℕ)
    → at ≡ length pre
    → set (pre ++ (z ∷ post)) at v ≡ pre ++ (v ∷ post)
set_behind pre post z v at e = rw e (go pre)
  where
    go : (pre : List ℕ) → set (pre ++ (z ∷ post)) (length pre) v ≡ pre ++ (v ∷ post)
    go [] = refl
    go (p ∷ pre) = ap (◌∷◌ p) (go pre)

Least-shorter : (i k : ℕ) → Least i (suc k) → Least (i / 256) k
Least-shorter zero k (lt, none_needed, low) = absurd (omega (arith, none_needed refl))
Least-shorter (suc i) zero (lt, none_needed, low) = (omega arith, omega arith, omega arith)
Least-shorter (suc i) (suc k) (lt, none_needed, low) =
    let low' = low (omega arith) in
    (
      omega (arith, pow-suc 256 (suc k)),
      (λ e. absurd (
          omega
            (arith, low', e, pow-suc 256 (suc k), pow-suc 256 k, one-le-pow k 256 (omega arith)))),
      omega (arith, low', pow-suc 256 (suc k), pow-suc 256 k),
    )

-- A write to the last element of a gap.
last_written :
    (pre front post : List ℕ) (z v at : ℕ)
    → at ≡ length pre + length front
    → set (pre ++ (front ++ (z ∷ post))) at v ≡ pre ++ (front ++ (v ∷ post))
last_written pre front post z v at e =
    rw (← append_assoc pre front (z ∷ post), ← append_assoc pre front (v ∷ post))
      (set_behind (pre ++ front) post z v at (omega (arith, length-append pre front)))

-- `write_back` replaces exactly the bytes that the number takes.
pub write_back_lem :
    (fuel k i : ℕ) (pre gap post : List ℕ) (at : ℕ)
    → i ≤ fuel
    → length gap ≡ k
    → Least i k
    → at ≡ length pre + k - 1
    → write_back fuel (pre ++ (gap ++ post)) at i ≡ pre ++ (to_big_endian k i ++ post)
unfolding write_back to_big_endian
write_back_lem zero zero i pre [] post at h e least w = refl
write_back_lem (suc fuel) zero i pre [] post at h e least w =
    let none_left : i ≡ 0 = omega (arith, least.0) in rw none_left
write_back_lem fuel zero i pre (g ∷ gap) post at h e least w = absurd (omega arith)
write_back_lem zero (suc k) i pre gap post at h e least w = absurd (omega (arith, least.1))
write_back_lem (suc fuel) (suc k) i pre gap post at h e least w =
    let (front, z, p, q) = snoc_view gap k e in
    let moved = (i % 256) ∷ post in
    rw
      (
        p,
        more,
        append_assoc front (z ∷ []) post,
        append_assoc (to_big_endian k (i / 256)) ((i % 256) ∷ []) post,
        last_written pre front post z (i % 256) at (omega (arith, q)),
      )
      (write_back_lem fuel k (i / 256) pre front moved (at - 1) (omega arith) q
        (Least-shorter i k least) (omega arith))
  where
    more : (i == 0) ≡ false
    more = ground (arith, least.1)

-- `pushInt` appends the number in as many bytes as it takes.
pub push_int_lem :
    (out : List ℕ) (i : ℕ)
    → push_int out i (bytes_required i) ≡ out ++ to_big_endian (bytes_required i) i
unfolding push_int
push_int_lem out i = simp append-nil at (
    write_back_lem i k i out zeros [] (length (out ++ zeros) - 1) (omega arith)
      (length-replicate k 0) (bytes_required_least i)
      (omega (arith, length-append out zeros, length-replicate k zero)))
  where
    k : ℕ
    k = bytes_required i

    zeros : List ℕ
    zeros = replicate k 0

-- `pushCount` appends the header of a long payload.
pub push_count_lem :
    (out : List ℕ) (n base : ℕ)
    → n < 2 ^ 64
    → base ≤ 0xff - 8
    → push_count out n base
      ≡ ok (out ++ ((base + bytes_required n) ∷ to_big_endian (bytes_required n) n))
unfolding push_count
push_count_lem out n base h b = rw (
  fits,
  in_byte,
  push_int_lem (out ++ ((bytes_required n + base) ∷ [])) n,
  append_assoc out ((bytes_required n + base) ∷ []) (to_big_endian (bytes_required n) n),
  add_comm (bytes_required n) base,
)
  where
    few : bytes_required n ≤ 8
    few = bytes_required-le n 8 h

    fits : ltb 0xff (bytes_required n + base) ≡ false
    fits = ground (arith, few)

    in_byte : (bytes_required n + base) % 256 ≡ bytes_required n + base
    in_byte = omega (arith, few)

take-append : (xs ys : List ℕ) (n : ℕ) → take (length xs + n) (xs ++ ys) ≡ xs ++ take n ys
take-append [] ys n = ap (λ (k : ℕ). take k ys) (omega arith)
take-append (x ∷ xs) ys n =
    let e : suc (length xs) + n ≡ suc (length xs + n) = omega arith in
    rw e (ap (◌∷◌ x) (take-append xs ys n))

drop-append : (xs ys : List ℕ) → drop (length xs) (xs ++ ys) ≡ ys
drop-append [] ys = refl
drop-append (x ∷ xs) ys = drop-append xs ys

-- The first element of a list that has one.
cons_view :
    (xs : List ℕ) (k : ℕ)
    → length xs ≡ suc k
    → (z : ℕ) × (rest : List ℕ) × (xs ≡ z ∷ rest) × (length rest ≡ k)
cons_view [] k e = absurd (omega arith)
cons_view (x ∷ xs) k e = (x, xs, refl, omega arith)

-- The space before the payload, which still holds old bytes.
gap : List ℕ → ℕ → List ℕ
gap body size = take size (body ++ replicate size 0)

length-gap : (body : List ℕ) (size : ℕ) → length (gap body size) ≡ size
unfolding gap
length-gap body size = omega (
  arith,
  length-take size (body ++ replicate size 0),
  length-append body (replicate size 0),
  length-replicate size zero,
)

moved_lem :
    (pre body : List ℕ) (size : ℕ)
    → take (length pre + size) ((pre ++ body) ++ replicate size 0)
        ++ drop (length pre) (pre ++ body)
      ≡ pre ++ (gap body size ++ body)
unfolding gap
moved_lem pre body size =
    rw
      (
        drop-append pre body,
        append_assoc pre body (replicate size 0),
        take-append pre (body ++ replicate size 0) size,
      )
      (append_assoc pre (take size (body ++ replicate size 0)) body)

nil_of_length : (xs : List ℕ) → length xs ≡ 0 → xs ≡ []
nil_of_length [] e = refl
nil_of_length (x ∷ xs) e = absurd (omega arith)

close_short :
    (pre body : List ℕ)
    → length body < 56
    → set (pre ++ (gap body 1 ++ body)) (length pre) ((list_start + length body) % 256)
      ≡ pre ++ ((list_start + length body) ∷ body)
close_short pre body h =
    let (z, rest, p, q) = cons_view (gap body 1) 0 (length-gap body 1) in
    let fits : (list_start + length body) % 256 ≡ list_start + length body = omega arith in
    rw (fits, p, nil_of_length rest q, set_behind pre body z (list_start + length body) _ refl)

close_long :
    (pre body : List ℕ)
    → bytes_required (length body) ≤ 8
    → write_back
        (length body)
        (set
          (pre ++ (gap body (1 + bytes_required (length body)) ++ body))
          (length pre)
          ((list_ind_len_zero + bytes_required (length body)) % 256))
        (length pre + bytes_required (length body))
        (length body)
      ≡ pre
        ++ (((list_ind_len_zero + bytes_required (length body))
              ∷ to_big_endian (bytes_required (length body)) (length body))
            ++ body)
close_long pre body h =
    let k = bytes_required (length body) in
    let (z, rest, p, q) = cons_view (gap body (1 + k)) k (omega (arith, length-gap body (1 + k))) in
    let fits : (list_ind_len_zero + k) % 256 ≡ list_ind_len_zero + k = omega arith in
    let hd = list_ind_len_zero + k in
    rw
      (
        fits,
        p,
        set_behind pre (rest ++ body) z hd (length pre) refl,
        ← append_assoc pre (hd ∷ []) (rest ++ body),
      )
      (write_back_lem (length body) k (length body) (pre ++ (hd ∷ [])) rest body _ (omega arith) q
          (bytes_required_least (length body)) (omega (arith, length-append pre (hd ∷ [])))
        ∙ append_assoc pre (hd ∷ []) (to_big_endian k (length body) ++ body))

-- Closing a list puts the header of the format before its payload.
pub close_list_lem :
    (pre body : List ℕ)
    → length body < 2 ^ 64
    → close_list (pre ++ body) (length pre)
      ≡ ok (pre ++ (header list_start list_ind_len_zero (length body) ++ body))
unfolding close_list header
close_list_lem pre body h = elim (Bool-cases (ltb (length body) 56)) [
  | inl short ↦
      rw (payload, short, moved_lem pre body 1) (ap ok (close_short pre body (ltb→lt _ _ short)))
  | inr long ↦
      rw (payload, long, fits, moved_lem pre body (1 + bytes_required (length body)))
        (ap ok (close_long pre body few))
]
  where
    payload : length (pre ++ body) - length pre ≡ length body
    payload = omega (arith, length-append pre body)

    few : bytes_required (length body) ≤ 8
    few = bytes_required-le (length body) 8 h

    fits : leb (list_ind_len_zero + bytes_required (length body)) 0xff ≡ true
    fits = ground (arith, few)
