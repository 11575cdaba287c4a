-- ===== src/DevCore/Endian.antt =====
-- libdevcore/CommonData.h: integers and big-endian byte strings. A byte string is a list of numbers;
-- `(ret << 8) | byte` is written `ret * 256 + byte`, since the low 8 bits of the shift are 0.
pub mod RoundTrip
use prog_po_w_miner.Common.{
  ℕ, zero, suc, ◌+◌, ◌*◌, ◌/◌, ◌%◌, ◌^◌, max, List, [], ◌∷◌, ◌++◌, ◌==◌, if◌then◌else◌,
}

-- `toBigEndian(_val, o_out)` for an output of the given size: the last byte first.
unfoldable pub to_big_endian : ℕ → ℕ → List ℕ
to_big_endian zero v = []
to_big_endian (suc n) v = to_big_endian n (v / 256) ++ (v % 256) ∷ []

from_big_endian_loop : ℕ → ℕ → List ℕ → ℕ
from_big_endian_loop width ret [] = ret
from_big_endian_loop width ret (b ∷ bs) =
    from_big_endian_loop width ((ret * 256 + b) % 2 ^ width) bs

-- `fromBigEndian<T>` for an unsigned type of the given width: the shift drops the bits above it.
unfoldable pub from_big_endian : ℕ → List ℕ → ℕ
unfolding from_big_endian_loop
from_big_endian width bs = from_big_endian_loop width 0 bs

-- for (; i != 0; ++n, i >>= 8) {}
unfoldable pub bytes_required_loop : ℕ → ℕ → ℕ → ℕ
bytes_required_loop zero i n = n
bytes_required_loop (suc fuel) i n =
    let rest = bytes_required_loop fuel (i / 256) (n + 1) in if i == 0 then n else rest

-- Each round makes `i` smaller, so `i` rounds are enough.
unfoldable pub bytes_required : ℕ → ℕ
unfolding bytes_required_loop
bytes_required i = bytes_required_loop i i 0

-- `toCompactBigEndian(_val, _min)`; its loop over `v` is the one of `bytesRequired`.
unfoldable pub to_compact_big_endian : ℕ → ℕ → List ℕ
to_compact_big_endian v least = to_big_endian (max least (bytes_required v)) v
