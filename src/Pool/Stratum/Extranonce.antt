-- ===== src/Pool/Stratum/Extranonce.antt =====
-- The extranonce of libpoolprotocols/stratum/EthStratumClient.cpp.
use prog_po_w_miner.Common.{
  ℕ, zero, suc, ◌+◌, ◌-◌, ◌*◌, ◌/◌, ◌%◌, ◌^◌, ◌≤◌, ◌<◌, ◌≡◌, refl, sym, ap, ◌∙◌, List, [], ◌∷◌,
  ◌++◌, length, replicate, arith,
}
use prog_po_w_miner.Common.Result.{ok}
use prog_po_w_miner.DevCore.Endian.{to_big_endian}
use prog_po_w_miner.DevCore.Endian.RoundTrip.{
  length-to_big_endian, to_big_endian-IsByte, from-to_big_endian,
}
use prog_po_w_miner.DevCore.Hex.{to_hex, from_hex, hex_rest, hex_byte, hex_digit, dont_add, throw}
use prog_po_w_miner.DevCore.Hex.RoundTrip.{from_hex-to_hex, hex_all-hex_rest, length-hex_rest}
use prog_po_w_miner.Pool.Stratum.State.{Client, hash_of, hash_of_bytes}
use prog_po_w_miner.Pool.Stratum.Session.{digits}
use prog_po_w_miner.Pool.Stratum.Replies.{padded, process_extranonce, start_nonce_of}
use mathlib.Core.List.{append_assoc, append-nil}
use native.Mathlib.Nat.{pow-suc, mul_assoc, mul-lt-mul_of_pos_right}

replicate-snoc {ℓ} : {A : Type ℓ} (n : ℕ) (a : A) → replicate n a ++ (a ∷ []) ≡ replicate (suc n) a
replicate-snoc zero a = refl
replicate-snoc (suc n) a = ap (◌∷◌ a) (replicate-snoc n a)

shifted : (k j p : ℕ) → to_big_endian (k + j) (p * 256 ^ j) ≡ to_big_endian k p ++ replicate j 0
unfolding to_big_endian
shifted k zero p =
    let size : k + 0 ≡ k = omega arith in
    let same : p * 1 ≡ p = omega arith in rw (size, same) (sym (append-nil (to_big_endian k p)))
shifted k (suc j) p =
    let size : k + suc j ≡ suc (k + j) = omega arith in
    let value : p * 256 ^ suc j ≡ p * 256 ^ j * 256 =
      ap (λ (n : ℕ). p * n) (pow-suc 256 j) ∙ sym (mul_assoc p (256 ^ j) 256) in
    let front : p * 256 ^ j * 256 / 256 ≡ p * 256 ^ j = omega arith in
    let last : p * 256 ^ j * 256 % 256 ≡ 0 = omega arith in
    rw
      (
        size,
        value,
        front,
        last,
        shifted k j p,
        append_assoc (to_big_endian k p) (replicate j 0) (0 ∷ []),
        replicate-snoc {A = ℕ} j 0,
      )
      refl

hex_rest-append : (xs ys : List ℕ) → hex_rest (xs ++ ys) ≡ hex_rest xs ++ hex_rest ys
unfolding hex_rest
hex_rest-append [] ys = refl
hex_rest-append (x ∷ xs) ys =
    rw (hex_rest-append xs ys) (sym (append_assoc (hex_byte 2 x) (hex_rest xs) (hex_rest ys)))

hex_rest-zeros : (j : ℕ) → hex_rest (replicate j 0) ≡ replicate (j + j) 48
unfolding hex_rest hex_byte hex_digit
hex_rest-zeros zero = refl
hex_rest-zeros (suc j) =
    let e : suc j + suc j ≡ suc (suc (j + j)) = omega arith in rw (e, hex_rest-zeros j) refl

-- The digits of a number of `k` bytes, filled up with zeros, are those of a number of 8 bytes.
padded-digits : (k j p : ℕ) → k + j ≡ 8 → padded 16 (digits k p) ≡ digits 8 (p * 256 ^ j)
unfolding padded digits to_hex
padded-digits k j p e =
    rw
      (
        hex_all-hex_rest (to_big_endian k p),
        hex_all-hex_rest (to_big_endian 8 (p * 256 ^ j)),
        ← e,
        shifted k j p,
        hex_rest-append (to_big_endian k p) (replicate j 0),
        hex_rest-zeros j,
        fill,
      )
      refl
  where
    fill : 16 - length (hex_rest (to_big_endian k p)) ≡ j + j
    fill = omega (
      arith,
      length-hex_rest (to_big_endian k p) (to_big_endian-IsByte k p),
      length-to_big_endian k p,
    )

length-digits : (k p : ℕ) → length (digits k p) ≡ 2 * k
unfolding digits to_hex
length-digits k p = rw (hex_all-hex_rest (to_big_endian k p)) (
    omega (
      arith,
      length-hex_rest (to_big_endian k p) (to_big_endian-IsByte k p),
      length-to_big_endian k p,
    ))

hash_of_lem :
    (n : ℕ) (s bs : List ℕ) → from_hex s throw ≡ ok bs → hash_of n s ≡ ok (hash_of_bytes n bs)
unfolding hash_of
hash_of_lem n s bs e = rw (e, hash_of) refl

hash_of-digits : (v : ℕ) → v < 2 ^ 64 → hash_of 8 (digits 8 v) ≡ ok v
unfolding hash_of_bytes digits
hash_of-digits v h =
    hash_of_lem 8 (digits 8 v) (to_big_endian 8 v)
      (from_hex-to_hex (to_big_endian 8 v) dont_add throw (to_big_endian-IsByte 8 v))
    ∙ rw (length-to_big_endian 8 v, from-to_big_endian 64 8 v h h) refl

pow_pos : (j : ℕ) → 0 < 256 ^ j
pow_pos zero = omega arith
pow_pos (suc j) = omega (arith, pow-suc 256 j, pow_pos j)

pow-add : (k j : ℕ) → 256 ^ k * 256 ^ j ≡ 256 ^ (k + j)
pow-add k zero = let e : k + 0 ≡ k = omega arith in rw e (omega arith)
pow-add k (suc j) =
    let e : k + suc j ≡ suc (k + j) = omega arith in
    let split : 256 ^ k * 256 ^ suc j ≡ 256 ^ k * 256 ^ j * 256 =
      ap (λ (n : ℕ). 256 ^ k * n) (pow-suc 256 j) ∙ sym (mul_assoc (256 ^ k) (256 ^ j) 256) in
    rw (e, split, pow-add k j) (sym (pow-suc 256 (k + j)))

in_nonce : (k j p : ℕ) → k + j ≡ 8 → p < 256 ^ k → p * 256 ^ j < 2 ^ 64
in_nonce k j p e h =
    let more : p * 256 ^ j < 256 ^ k * 256 ^ j = mul-lt-mul_of_pos_right h (pow_pos j) in
    let all : 256 ^ k * 256 ^ j ≡ 2 ^ 64 = rw (pow-add k j, e) refl in rw all at more

low_half : (j p : ℕ) → 4 ≤ j → p * 256 ^ j % 2 ^ 64 % 2 ^ 32 ≡ 0
low_half j p h =
    let i = j - 4 in
    let four : j ≡ suc (suc (suc (suc i))) = omega arith in
    let power : 256 ^ suc (suc (suc (suc i))) ≡ 256 ^ i * 2 ^ 32 = omega (
      arith,
      pow-suc 256 (suc (suc (suc i))),
      pow-suc 256 (suc (suc i)),
      pow-suc 256 (suc i),
      pow-suc 256 i,
    ) in
    let value : p * 256 ^ j ≡ p * 256 ^ i * 2 ^ 32 =
      ap (λ (n : ℕ). p * 256 ^ n) four
      ∙ (ap (λ (n : ℕ). p * n) power ∙ sym (mul_assoc p (256 ^ i) (2 ^ 32))) in
    rw value (omega arith)

-- An extranonce of `k` bytes becomes the upper bytes of a nonce, and its size in digits is kept.
process_extranonce-digits :
    (k j p : ℕ) (c : Client)
    → k + j ≡ 8
    → p < 256 ^ k
    → process_extranonce (digits k p) c
      ≡ ok (record c { extra_nonce_hex_size = 2 * k; extra_nonce = p * 256 ^ j })
unfolding process_extranonce
process_extranonce-digits k j p c e h =
    rw (padded-digits k j p e, hash_of-digits (p * 256 ^ j) (in_nonce k j p e h), length-digits k p)
      refl

-- Of an extranonce of at most four bytes nothing is left in the start nonce of a job, which is 0.
pub process_extranonce-start_nonce :
    (k j p : ℕ) (c : Client)
    → k + j ≡ 8
    → k ≤ 4
    → p < 256 ^ k
    → (d : Client) × (process_extranonce (digits k p) c ≡ ok d) × (start_nonce_of d.extra_nonce ≡ 0)
unfolding start_nonce_of
process_extranonce-start_nonce k j p c e few h =
    (_, process_extranonce-digits k j p c e h, low_half j p (omega arith))
