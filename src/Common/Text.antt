-- ===== src/Common/Text.antt =====
-- The text that the program builds through streams and `std::to_string`.
use Prim.Native.Nat.{ℕ, zero, suc, ◌/◌, ◌%◌}
use Prim.Native.String.{String, ◌++◌}
use Prim.Native.String
use Prim.Native.Nat.{Ordering}
use mathlib.Core.Bool.{Bool, true, false}
use mathlib.Core.List.{List, [], ◌∷◌}
use prog_po_w_miner.Common.Tests.{◌==◌, if◌then◌else◌}
use prog_po_w_miner.Common.Lists.{get_or}

-- What a string stream holds after the given pieces were written to it.
unfoldable pub text : List String → String
text [] = ""
text (s ∷ ss) = s ++ text ss

abbrev decimal_digits : List String
decimal_digits = "0" ∷ "1" ∷ "2" ∷ "3" ∷ "4" ∷ "5" ∷ "6" ∷ "7" ∷ "8" ∷ "9" ∷ []

decimal : ℕ → ℕ → String
decimal zero n = ""
decimal (suc fuel) n =
    let front = decimal fuel (n / 10) in
    (if n / 10 == 0 then "" else front) ++ get_or decimal_digits (n % 10) ""

-- `std::to_string` of a number below 2 ^ 64, which has at most 20 decimal digits.
unfoldable pub to_string : ℕ → String
unfolding decimal
to_string n = decimal 20 n

-- `==` of two strings
unfoldable pub same_text : String → String → Bool
same_text a b = elim (String.compare a b) [ Ordering.eq ↦ true | _ ↦ false ]
