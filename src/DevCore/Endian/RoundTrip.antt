-- ===== src/DevCore/Endian/RoundTrip.antt =====
-- The conversions of libdevcore/CommonData.h undo one another.
use prog_po_w_miner.Common.{
  ℕ, zero, suc, ◌+◌, ◌*◌, ◌/◌, ◌%◌, ◌^◌, ◌≤◌, ◌<◌, ◌≡◌, refl, max, List, [], ◌∷◌, ◌++◌, length,
  length-append, All, All-append, arith, ◌==◌, Bool-cases, inl, inr,
}
use prog_po_w_miner.DevCore.Endian.{
  to_big_endian, from_big_endian_loop, from_big_endian, bytes_required_loop, bytes_required,
  to_compact_big_endian,
}
use native.Mathlib.Nat.{pow-suc, mod-eq_of_lt, le_trans, pow-le-pow_right}
use native.Mathlib.Decide.{dec_lt}

abbrev pub IsByte : ℕ → Type 0
IsByte b = b < 256

pub length-to_big_endian : (n v : ℕ) → length (to_big_endian n v) ≡ n
unfolding to_big_endian
length-to_big_endian zero v = refl
length-to_big_endian (suc n) v = omega (
  arith,
  length-append (to_big_endian n (v / 256)) ((v % 256) ∷ []),
  length-to_big_endian n (v / 256),
)

pub to_big_endian-IsByte : (n v : ℕ) → All IsByte (to_big_endian n v)
unfolding to_big_endian
to_big_endian-IsByte zero v = tt
to_big_endian-IsByte (suc n) v =
    All-append IsByte (to_big_endian n (v / 256)) _ (to_big_endian-IsByte n (v / 256))
      (omega arith, tt)

loop-append :
    (w r : ℕ) (xs ys : List ℕ)
    → from_big_endian_loop w r (xs ++ ys) ≡ from_big_endian_loop w (from_big_endian_loop w r xs) ys
unfolding from_big_endian_loop
loop-append w r [] ys = refl
loop-append w r (x ∷ xs) ys = loop-append w ((r * 256 + x) % 2 ^ w) xs ys

loop-to_big_endian :
    (w n v : ℕ) → v < 256 ^ n → v < 2 ^ w → from_big_endian_loop w 0 (to_big_endian n v) ≡ v
unfolding from_big_endian_loop to_big_endian
loop-to_big_endian w zero v h k = omega arith
loop-to_big_endian w (suc n) v h k =
    rw
      (
        loop-append w 0 (to_big_endian n (v / 256)) ((v % 256) ∷ []),
        loop-to_big_endian w n (v / 256) (omega (arith, pow-suc 256 n)) (omega arith),
      )
      (let whole : v / 256 * 256 + v % 256 ≡ v = omega arith in rw whole (mod-eq_of_lt k))

-- A value that fits both the output's `n` bytes and the type's `w` bits is read back as it was
-- written.
pub from-to_big_endian :
    (w n v : ℕ) → v < 256 ^ n → v < 2 ^ w → from_big_endian w (to_big_endian n v) ≡ v
unfolding from_big_endian
from-to_big_endian w n v h k = loop-to_big_endian w n v h k

-- `k` bytes hold `i`, and no fewer do.
abbrev pub Least : ℕ → ℕ → Type 0
Least i k = (i < 256 ^ k) × (i ≡ 0 → k ≡ 0) × (0 < i → 256 ^ k ≤ 256 * i)

Least-suc : (i k : ℕ) → 0 < i → Least (i / 256) k → Least i (suc k)
Least-suc i k p (lt, none_needed, low) = elim (dec_lt 0 (i / 256)) [
  | yes q ↦ (omega (arith, pow-suc 256 k), omega arith, omega (arith, pow-suc 256 k, low q))
  | no q ↦ let e : k ≡ 0 = none_needed (omega arith) in rw e (omega arith, omega arith, omega arith)
]

bytes_required_loop_lem :
    (fuel i n : ℕ) → i ≤ fuel → (k : ℕ) × (bytes_required_loop fuel i n ≡ n + k) × Least i k
unfolding bytes_required_loop
bytes_required_loop_lem zero i n h = (0, omega arith, (omega arith, omega arith, omega arith))
bytes_required_loop_lem (suc fuel) i n h = elim (Bool-cases (i == 0)) [
  | inl e ↦ rw e (0, omega arith, (ground arith, ground arith, ground arith))
  | inr e ↦
      let (k, q, least) = bytes_required_loop_lem fuel (i / 256) (n + 1) (ground arith) in
      rw e (suc k, omega (arith, q), Least-suc i k (ground arith) least)
]

-- `bytesRequired(i)` is the least number of bytes that holds `i`: `i` fits that many, and, unless `i`
-- is 0, when no byte is needed, it does not fit one less.
pub bytes_required_least :
    (i : ℕ)
    → (i < 256 ^ bytes_required i)
      × (i ≡ 0 → bytes_required i ≡ 0)
      × (0 < i → 256 ^ bytes_required i ≤ 256 * i)
unfolding bytes_required
bytes_required_least i =
    let (k, e, least) = bytes_required_loop_lem i i 0 (omega arith) in
    let e' : bytes_required_loop i i 0 ≡ k = omega (arith, e) in rw e' least

-- Every value below 2 ^ w that is written compactly is read back by a type of `w` bits, and its bytes
-- are as many as the value needs, or `least` if that is more.
pub from-to_compact_big_endian :
    (w least v : ℕ)
    → v < 2 ^ w
    → (from_big_endian w (to_compact_big_endian v least) ≡ v)
      × (length (to_compact_big_endian v least) ≡ max least (bytes_required v))
unfolding to_compact_big_endian
from-to_compact_big_endian w least v h =
    let n = max least (bytes_required v) in
    (
      from-to_big_endian w n v
          (le_trans (bytes_required_least v).0
            (pow-le-pow_right (omega arith) {j = n} (omega arith)))
          h,
      length-to_big_endian n v,
    )

-- A value below 256 ^ m takes at most `m` bytes.
pub bytes_required-le : (i m : ℕ) → i < 256 ^ m → bytes_required i ≤ m
bytes_required-le zero m h = omega (arith, (bytes_required_least 0).1 refl)
bytes_required-le (suc i) m h = elim (dec_lt m (bytes_required (suc i))) [
  | yes more ↦ absurd (
      omega (
        arith,
        (bytes_required_least (suc i)).2 (omega arith),
        pow-suc 256 m,
        pow-le-pow_right {n = 256} (omega arith) {i = suc m} {j = bytes_required (suc i)} more,
      ))
  | no few ↦ omega arith
]

-- `bytes_required i` bytes hold `i`, and one byte less does not, but for 0, which needs none.
bytes_required_tight :
    (i : ℕ) → (i < 256 ^ bytes_required i) × (256 ^ bytes_required i ≤ 256 * i + 1)
bytes_required_tight zero =
    let none : bytes_required 0 ≡ 0 = (bytes_required_least 0).1 refl in
    rw none (omega arith, omega arith)
bytes_required_tight (suc i) =
    let (held, z, least) = bytes_required_least (suc i) in
    (held, omega (arith, least (omega arith)))
