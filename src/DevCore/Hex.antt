-- ===== src/DevCore/Hex.antt =====
-- libdevcore/CommonData.{h,cpp}: hexadecimal text. A string is the list of its bytes.
pub mod RoundTrip
use prog_po_w_miner.Common.{
  ℕ, zero, suc, ◌+◌, ◌-◌, ◌*◌, ◌/◌, ◌%◌, List, [], ◌∷◌, ◌++◌, Bool, true, false, ◌&&◌, Option, none,
  some, ltb, leb, ◌==◌, if◌then◌else◌, length, get_or, drop, replicate,
}
use prog_po_w_miner.Common.Result.{Result, ok, err, ◌>>=◌}

pub data WhenError : Type 0 where
  dont_throw throw : WhenError

pub data HexPrefix : Type 0 where
  dont_add add : HexPrefix

pub data HexError : Type 0 where
  bad_hex_character : HexError

-- `fromHex(char, WhenError::DontThrow)`; `none` is the result -1.
unfoldable pub hex_value : ℕ → Option ℕ
hex_value c =
    if leb b'0' c && leb c b'9'
    then some (c - b'0')
    else if leb b'a' c && leb c b'f'
    then some (c - b'a' + 10)
    else if leb b'A' c && leb c b'F'
    then some (c - b'A' + 10)
    else none

-- What a bad character does to the conversion of a whole string.
unfoldable pub bad : WhenError → Result HexError (List ℕ)
bad throw = err bad_hex_character
bad dont_throw = ok []

-- One byte from two digits, before the bytes of the rest.
unfoldable pub pair_value : Option ℕ → Option ℕ → Option ℕ
pair_value (some h) (some l) = some ((h * 16 + l) % 256)
pair_value (some h) none = none
pair_value none l = none

-- The loop over the pairs, with the bytes collected so far. The number of characters left is even.
unfoldable pub from_hex_pairs : WhenError → List ℕ → List ℕ → Result HexError (List ℕ)
from_hex_pairs w ret [] = ok ret
from_hex_pairs w ret (c ∷ []) = bad w
from_hex_pairs w ret (c ∷ d ∷ rest) = elim (pair_value (hex_value c) (hex_value d)) [
  | some b ↦ from_hex_pairs w (ret ++ b ∷ []) rest
  | none ↦ bad w
]

-- The first character of an odd number stands alone.
unfoldable pub from_hex_odd : WhenError → List ℕ → Result HexError (List ℕ)
from_hex_odd w [] = ok []
from_hex_odd w (c ∷ rest) = elim (hex_value c) [
  | some h ↦ from_hex_pairs w (h ∷ []) rest
  | none ↦ bad w
]

-- Whether the string starts with "0x"; past its end a string reads as 0.
unfoldable pub has_prefix : List ℕ → Bool
has_prefix s = get_or s 0 0 == b'0' && get_or s 1 0 == b'x'

-- `fromHex(string, WhenError)`
unfoldable pub from_hex : List ℕ → WhenError → Result HexError (List ℕ)
from_hex s w =
    let digits = if has_prefix s then drop 2 s else s in
    if length s % 2 == 0 then from_hex_pairs w [] digits else from_hex_odd w digits

-- A digit as the stream writes it under `std::hex`.
unfoldable pub hex_digit : ℕ → ℕ
hex_digit d = if ltb d 10 then b'0' + d else b'a' + (d - 10)

-- One byte under `std::setfill('0') << std::setw(width)`.
unfoldable pub hex_byte : ℕ → ℕ → List ℕ
hex_byte width b =
    let digits =
      if ltb b 16 then hex_digit b ∷ [] else hex_digit (b / 16) ∷ hex_digit (b % 16) ∷ [] in
    replicate (width - length digits) b'0' ++ digits

unfoldable pub hex_rest : List ℕ → List ℕ
hex_rest [] = []
hex_rest (b ∷ bs) = hex_byte 2 b ++ hex_rest bs

unfoldable pub hex_all : List ℕ → ℕ → List ℕ
hex_all [] width = []
hex_all (b ∷ bs) width = hex_byte width b ++ hex_rest bs

-- `toHex(bytes, _w, HexPrefix)`: the width is that of the first byte.
unfoldable pub to_hex : List ℕ → ℕ → HexPrefix → List ℕ
to_hex bs width add = b'0' ∷ b'x' ∷ hex_all bs width
to_hex bs width dont_add = hex_all bs width
