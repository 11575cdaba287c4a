-- ===== src/DevCore/Hex/RoundTrip.antt =====
-- Hexadecimal text of libdevcore/CommonData.{h,cpp} is read back as it was written.
use prog_po_w_miner.Common.{
  ℕ, suc, ◌*◌, ◌/◌, ◌%◌, ◌<◌, ◌≡◌, refl, ap, ◌∙◌, List, [], ◌∷◌, ◌++◌, true, false, some, length,
  ◌==◌, All, arith,
}
use prog_po_w_miner.Common.Result.{ok}
use prog_po_w_miner.DevCore.Hex.{
  WhenError, HexPrefix, dont_add, add, hex_value, pair_value, from_hex_pairs, has_prefix, from_hex,
  hex_digit, hex_byte, hex_rest, hex_all, to_hex,
}
use prog_po_w_miner.DevCore.Endian.RoundTrip.{IsByte}
use mathlib.Core.List.{append_assoc, append-nil}

hex_value-hex_digit : (d : ℕ) → d < 16 → hex_value (hex_digit d) ≡ some d
unfolding hex_value hex_digit
hex_value-hex_digit d h = ground arith

hex_byte_lem : (b : ℕ) → IsByte b → hex_byte 2 b ≡ hex_digit (b / 16) ∷ hex_digit (b % 16) ∷ []
unfolding hex_byte hex_digit
hex_byte_lem b h = ground arith

pair-hex_byte :
    (b : ℕ)
    → IsByte b
    → pair_value (hex_value (hex_digit (b / 16))) (hex_value (hex_digit (b % 16))) ≡ some b
unfolding pair_value
pair-hex_byte b h =
    rw (hex_value-hex_digit (b / 16) (omega arith), hex_value-hex_digit (b % 16) (omega arith))
      (ap some (omega arith))

pair_step :
    (w : WhenError) (ret rest : List ℕ) (c d b : ℕ)
    → pair_value (hex_value c) (hex_value d) ≡ some b
    → from_hex_pairs w ret (c ∷ d ∷ rest) ≡ from_hex_pairs w (ret ++ (b ∷ [])) rest
unfolding from_hex_pairs
pair_step w ret rest c d b e = rw (e, from_hex_pairs)

pairs-hex_rest :
    (w : WhenError) (ret bs : List ℕ)
    → All IsByte bs
    → from_hex_pairs w ret (hex_rest bs) ≡ ok (ret ++ bs)
unfolding hex_rest
pairs-hex_rest w ret [] h = rw append-nil (unfold from_hex_pairs in refl)
pairs-hex_rest w ret (b ∷ bs) (hb, hbs) = rw (hex_byte_lem b hb) (
    pair_step w ret (hex_rest bs) _ _ b (pair-hex_byte b hb)
    ∙ pairs-hex_rest w (ret ++ (b ∷ [])) bs hbs
    ∙ ap ok (append_assoc ret (b ∷ []) bs))

-- The first byte at the width 2 is written like the others.
pub hex_all-hex_rest : (bs : List ℕ) → hex_all bs 2 ≡ hex_rest bs
unfolding hex_all hex_rest
hex_all-hex_rest [] = refl
hex_all-hex_rest (b ∷ bs) = refl

pub length-hex_rest : (bs : List ℕ) → All IsByte bs → length (hex_rest bs) ≡ 2 * length bs
unfolding hex_rest
length-hex_rest [] h = refl
length-hex_rest (b ∷ bs) (hb, hbs) = rw (hex_byte_lem b hb) (omega (arith, length-hex_rest bs hbs))

-- No digit is the letter of the prefix.
no_prefix : (bs : List ℕ) → All IsByte bs → has_prefix (hex_rest bs) ≡ false
unfolding has_prefix hex_rest
no_prefix [] h = refl
no_prefix (b ∷ bs) (hb, hbs) = rw (hex_byte_lem b hb) (unfold hex_digit in ground arith)

prefix_found : (s : List ℕ) → has_prefix (b'0' ∷ b'x' ∷ s) ≡ true
unfolding has_prefix
prefix_found s = refl

-- A string of bytes, written as two digits each, with the prefix or without it, is read back as it
-- was, whatever is to be done about bad characters.
pub from_hex-to_hex :
    (bs : List ℕ) (prefix : HexPrefix) (w : WhenError)
    → All IsByte bs
    → from_hex (to_hex bs 2 prefix) w ≡ ok bs
unfolding from_hex to_hex
from_hex-to_hex bs dont_add w h =
    rw (hex_all-hex_rest bs, no_prefix bs h, even) (pairs-hex_rest w [] bs h)
  where
    even : (length (hex_rest bs) % 2 == 0) ≡ true
    even = ground (arith, length-hex_rest bs h)
from_hex-to_hex bs add w h =
    rw (hex_all-hex_rest bs, prefix_found (hex_rest bs), even) (pairs-hex_rest w [] bs h)
  where
    even : (suc (suc (length (hex_rest bs))) % 2 == 0) ≡ true
    even = ground (arith, length-hex_rest bs h)
