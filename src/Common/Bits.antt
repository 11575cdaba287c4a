-- ===== src/Common/Bits.antt =====
-- The binary operations of the program's words, at every width: results stay within the width.
use Prim.Native.Nat.{
  ℕ, zero, suc, ◌/◌, ◌%◌, ◌^◌, ◌≤◌, ◌<◌, max, bit_or, bit_xor, digits, differ, bit_or-bitwise,
  bit_xor-bitwise,
}
use native.Mathlib.Nat.{pow-suc}
use native.Mathlib.Omega.{arith}

-- `digits` does not leave the range of its operands, if the operation on two digits is a digit.
digits-lt :
    (z : ℕ → ℕ) (f : ℕ → ℕ → ℕ) (k n a b : ℕ)
    → ((c : ℕ) → z c ≤ c)
    → ((c d : ℕ) → c < 2 → d < 2 → f c d < 2)
    → a < 2 ^ k
    → b < 2 ^ k
    → digits z f n a b < 2 ^ k
digits-lt z f k zero a b hz hf ha hb = omega (arith, hz b)
digits-lt z f k (suc n) zero b hz hf ha hb = omega (arith, hz b)
digits-lt z f zero (suc n) (suc a) b hz hf ha hb = absurd (omega arith)
digits-lt z f (suc k) (suc n) (suc a) b hz hf ha hb = omega (
  arith,
  pow-suc 2 k,
  hf (suc a % 2) (b % 2) (omega arith) (omega arith),
  digits-lt z f k n (suc a / 2) (b / 2) hz hf (omega (arith, pow-suc 2 k))
      (omega (arith, pow-suc 2 k)),
)

pub bit_xor-lt : (k a b : ℕ) → a < 2 ^ k → b < 2 ^ k → bit_xor a b < 2 ^ k
bit_xor-lt k a b ha hb =
    rw (bit_xor-bitwise a b) (digits-lt _ _ k a a b (λ c. omega arith) differ-lt ha hb)
  where
    differ-lt : (c d : ℕ) → c < 2 → d < 2 → differ c d < 2
    differ-lt zero d hc hd = hd
    differ-lt (suc zero) zero hc hd = omega arith
    differ-lt (suc zero) (suc d) hc hd = omega arith
    differ-lt (suc (suc c)) d hc hd = absurd (omega arith)

pub bit_or-lt : (k a b : ℕ) → a < 2 ^ k → b < 2 ^ k → bit_or a b < 2 ^ k
bit_or-lt k a b ha hb =
    rw (bit_or-bitwise a b)
      (digits-lt (λ c. c) max k a a b (λ c. omega arith) (λ c d hc hd. omega arith) ha hb)
