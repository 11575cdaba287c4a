-- ===== src/Mining/Devices.antt =====
-- What the miners of libethash-cl/CLMiner.cpp and libethash-cuda/CUDAMiner.cpp share: how a work package
-- becomes the parameters of a search.
pub mod Opencl
pub mod Cuda
use prog_po_w_miner.Common.{
  ℕ, ◌+◌, ◌-◌, ◌*◌, ◌/◌, ◌%◌, ◌^◌, Bool, true, false, Option, none, some, bit_or, leb, ◌==◌,
  if◌then◌else◌,
}
use prog_po_w_miner.Common.Integers.{ℤ, pos, negsuc}
use prog_po_w_miner.ProgPow.Kernel.{period}

-- The offset that is added to the height of the work.
abbrev pub height_offset : ℕ
height_offset = 2584000

-- `LOG2_MAX_MINERS`
abbrev pub log2_max_miners : ℕ
log2_max_miners = 5

unfoldable pub period_seed : ℕ → ℕ
period_seed height = (height + height_offset) % 2 ^ 64 / period

unfoldable pub same_epoch : ℤ → ℤ → Bool
same_epoch (pos m) (pos n) = m == n
same_epoch (negsuc m) (negsuc n) = m == n
same_epoch _ _ = false

-- The upper 64 bits of a boundary
unfoldable pub upper_64 : ℕ → ℕ
upper_64 boundary = boundary / 2 ^ 192

-- The start nonce of a device under an extranonce, in 32 bits. With more than 27 bits of extranonce the
-- amount of the shift is no amount that the language defines.
unfoldable pub extranonce_start : (index start_nonce ex_size_bits : ℕ) → Option ℕ
extranonce_start index start_nonce ex_size_bits =
    if leb ex_size_bits (32 - log2_max_miners)
    then some (bit_or start_nonce (index * 2 ^ (32 - log2_max_miners - ex_size_bits) % 2 ^ 32))
    else none
