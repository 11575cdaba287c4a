-- ===== src/DevCore/Runs.antt =====
-- Runs of the conversions of libdevcore/CommonData.{h,cpp}, and the theorems at concrete inputs.
use prog_po_w_miner.Common.{◌≡◌, refl, max, [], ◌∷◌, length, arith}
use prog_po_w_miner.Common.Result.{ok, err}
use prog_po_w_miner.DevCore.Endian.{
  to_big_endian, from_big_endian, bytes_required, to_compact_big_endian,
}
use prog_po_w_miner.DevCore.Endian.RoundTrip.{from-to_big_endian, from-to_compact_big_endian}
use prog_po_w_miner.DevCore.Hex.{
  throw, dont_add, add, bad_hex_character, to_hex, from_hex, from_hex_pairs, from_hex_odd,
  hex_value, has_prefix, pair_value, bad, hex_all, hex_rest, hex_byte, hex_digit,
}
use prog_po_w_miner.DevCore.Hex.RoundTrip.{from_hex-to_hex}

-- The examples of the header.
to_hex_run : to_hex (0x41 ∷ 0x69 ∷ []) 2 dont_add ≡ b'4' ∷ b'1' ∷ b'6' ∷ b'9' ∷ []
unfolding to_hex hex_all hex_rest hex_byte hex_digit
to_hex_run = refl

-- An odd number of digits: the first stands alone.
from_hex_run : from_hex (b'0' ∷ b'x' ∷ b'f' ∷ b'4' ∷ b'1' ∷ []) throw ≡ ok (15 ∷ 0x41 ∷ [])
unfolding from_hex from_hex_pairs from_hex_odd hex_value has_prefix pair_value
from_hex_run = refl

from_hex_bad : from_hex (b'4' ∷ b'g' ∷ []) throw ≡ err bad_hex_character
unfolding from_hex from_hex_pairs hex_value has_prefix pair_value bad
from_hex_bad = refl

bytes_required_run : bytes_required 0x10000 ≡ 3
unfolding bytes_required
bytes_required_run = refl

from-to_big_endian_example : from_big_endian 64 (to_big_endian 3 0x10203) ≡ 0x10203
from-to_big_endian_example = from-to_big_endian 64 3 0x10203 (omega arith) (omega arith)

from-to_compact_big_endian_example :
    (from_big_endian 64 (to_compact_big_endian 0 1) ≡ 0)
    × (length (to_compact_big_endian 0 1) ≡ max 1 (bytes_required 0))
from-to_compact_big_endian_example = from-to_compact_big_endian 64 1 0 (omega arith)

from_hex-to_hex_example : from_hex (to_hex (255 ∷ 0 ∷ 9 ∷ []) 2 add) throw ≡ ok (255 ∷ 0 ∷ 9 ∷ [])
from_hex-to_hex_example = from_hex-to_hex (255 ∷ 0 ∷ 9 ∷ []) add throw (omega arith)
