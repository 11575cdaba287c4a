-- ===== src/Common/Numerals.antt =====
-- How `std::stol` and `atoi` read a number at the beginning of a text. A `long` has 64 bits and an `int`
-- 32.
use prog_po_w_miner.Common.Tests.{ltb, leb, ◌==◌, if◌then◌else◌}
use prog_po_w_miner.Common.Integers.{ℤ, pos, negsuc}
use Prim.Native.Nat.{ℕ, zero, suc, ◌+◌, ◌-◌, ◌*◌, ◌%◌, ◌^◌}
use Prim.Native.Char.{code}
use Prim.Native.String.{String, [], ◌∷◌}
use mathlib.Core.Bool.{Bool, ◌&&◌, ◌||◌}
use mathlib.Core.List.{List, [], ◌∷◌}
use mathlib.Core.Option.{Option, none, some}

codes : String → List ℕ
codes [] = []
codes (c ∷ s) = code c ∷ codes s

is_space : ℕ → Bool
is_space c = c == 32 || leb 9 c && leb c 13

is_digit : ℕ → Bool
is_digit c = leb 48 c && leb c 57

skip_spaces : List ℕ → List ℕ
skip_spaces [] = []
skip_spaces (c ∷ cs) = let rest = skip_spaces cs in if is_space c then rest else c ∷ cs

-- The number that the digits from here on go on with
digits_from : ℕ → List ℕ → ℕ
digits_from n [] = n
digits_from n (c ∷ cs) =
    let rest = digits_from (n * 10 + (c - 48)) cs in if is_digit c then rest else n

natural : List ℕ → Option ℕ
natural [] = none
natural (c ∷ cs) = if is_digit c then some (digits_from 0 (c ∷ cs)) else none

negated : ℕ → ℤ
negated zero = pos 0
negated (suc n) = negsuc n

-- A sign may stand before the digits.
signed : List ℕ → Option ℤ
signed [] = none
signed (c ∷ cs) =
    if c == 45
    then elim (natural cs) [ none ↦ none | some n ↦ some (negated n) ]
    else elim (if c == 43 then natural cs else natural (c ∷ cs)) [
      | none ↦ none
      | some n ↦ some (pos n)
    ]

-- `stol`: nothing if it throws, because there is no number or it does not fit
unfoldable pub stol : String → Option ℤ
unfolding codes is_space is_digit skip_spaces digits_from natural negated signed
stol s = elim (signed (skip_spaces (codes s))) [
  | none ↦ none
  | some (pos n) ↦ if ltb n (2 ^ 63) then some (pos n) else none
  | some (negsuc n) ↦ if ltb n (2 ^ 63) then some (negsuc n) else none
]

-- A number of type `unsigned` of `w` bits
unfoldable pub to_unsigned : ℕ → ℤ → ℕ
to_unsigned w (pos n) = n % 2 ^ w
to_unsigned w (negsuc n) = 2 ^ w - 1 - n % 2 ^ w

-- A number of type `int`
unfoldable pub to_int32 : ℤ → ℤ
unfolding to_unsigned
to_int32 z = let n = to_unsigned 32 z in if ltb n (2 ^ 31) then pos n else negsuc (2 ^ 32 - 1 - n)

-- `atoi`: 0 if there is no number; one that does not fit a `long` is the nearest that does.
unfoldable pub atoi : String → ℤ
unfolding codes is_space is_digit skip_spaces digits_from natural negated signed to_int32
atoi s = elim (signed (skip_spaces (codes s))) [
  | none ↦ pos 0
  | some (pos n) ↦ to_int32 (if ltb n (2 ^ 63) then pos n else pos (2 ^ 63 - 1))
  | some (negsuc n) ↦ to_int32 (if ltb n (2 ^ 63) then negsuc n else negsuc (2 ^ 63 - 1))
]
