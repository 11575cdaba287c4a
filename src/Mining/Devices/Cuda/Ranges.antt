-- ===== src/Mining/Devices/Cuda/Ranges.antt =====
-- Which nonces the search of libethash-cuda/CUDAMiner.cpp tries.
use prog_po_w_miner.Common.{ℕ, ◌+◌, ◌/◌, ◌%◌, ◌^◌, ◌<◌, ◌≤◌, ◌≡◌, ◌≢◌, sym, ap, ◌∙◌, arith}
use prog_po_w_miner.Mining.Devices.Cuda.{max_nonce, next_nonce}

-- A nonce that a device tries: its lower 36 bits are below the limit, and the next four bits are the
-- number of the device.
pub record InRange (device_num nonce : ℕ) : Type 0 where
  pub low : nonce % 2 ^ 36 ≤ max_nonce
  pub device : nonce / 2 ^ 36 % 16 ≡ device_num % 16
  pub word : nonce < 2 ^ 64

pub next_nonce-InRange :
    (device_num batch_size nonce : ℕ) → InRange device_num (next_nonce device_num batch_size nonce)
unfolding next_nonce
next_nonce-InRange d b n = ground arith

-- The nonces that a kernel tries show the number of its device.
tried-device : (d n i : ℕ) → InRange d n → i < 2 ^ 32 → (n + i) % 2 ^ 64 / 2 ^ 36 % 16 ≡ d % 16
tried-device d n i r h = omega (arith, r.low, r.device, r.word)

-- Two devices whose numbers differ in their lower four bits never try the same nonce, wherever their
-- searches began, when a kernel tries at most 2 ^ 32 nonces.
pub next_nonce-apart :
    (d e b c m n i j : ℕ)
    → d % 16 ≢ e % 16
    → i < b
    → j < c
    → b ≤ 2 ^ 32
    → c ≤ 2 ^ 32
    → (next_nonce d b m + i) % 2 ^ 64 ≢ (next_nonce e c n + j) % 2 ^ 64
next_nonce-apart d e b c m n i j ne hi hj hb hc q = ne (
    sym (tried-device d _ i (next_nonce-InRange d b m) (omega arith))
    ∙ ap (λ (t : ℕ). t / 2 ^ 36 % 16) q
    ∙ tried-device e _ j (next_nonce-InRange e c n) (omega arith))

-- Up to the limit, the nonces of a device follow one another.
pub next_nonce-follows :
    (d b n : ℕ) → InRange d n → n % 2 ^ 36 + b ≤ max_nonce → next_nonce d b n ≡ n + b
unfolding next_nonce
next_nonce-follows d b n r h = ground arith
