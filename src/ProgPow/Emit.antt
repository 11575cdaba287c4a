-- ===== src/ProgPow/Emit.antt =====
-- libprogpow/ProgPow.cpp: `merge` and `math`, the source text of one random instruction.
use Prim.Native.String.{String}
use prog_po_w_miner.Common.{ℕ, zero, suc, ◌+◌, ◌/◌, ◌%◌, ◌^◌, [], ◌∷◌}
use prog_po_w_miner.Common.Text.{text, to_string}

-- Where a `switch` ends when no case applies.
abbrev pub no_case : String
no_case = "#error\n"

-- The amount of a rotation.
abbrev pub rotation : ℕ → ℕ
rotation r = (r / 2 ^ 16) % 31 + 1

merge_case : ℕ → String → String → ℕ → String
merge_case zero a b r =
    text (a ∷ " = ROTR32(" ∷ a ∷ ", " ∷ to_string (rotation r) ∷ ") ^ " ∷ b ∷ ";\n" ∷ [])
merge_case (suc zero) a b r =
    text (a ∷ " = ROTL32(" ∷ a ∷ ", " ∷ to_string (rotation r) ∷ ") ^ " ∷ b ∷ ";\n" ∷ [])
merge_case (suc (suc zero)) a b r = text (a ∷ " = (" ∷ a ∷ " * 33) + " ∷ b ∷ ";\n" ∷ [])
merge_case (suc (suc (suc zero))) a b r = text (a ∷ " = (" ∷ a ∷ " ^ " ∷ b ∷ ") * 33;\n" ∷ [])
merge_case other a b r = no_case

unfoldable pub merge : String → String → ℕ → String
unfolding merge_case
merge a b r = merge_case (r % 4) a b r

abbrev binary : String → String → String → String → String
binary d a op b = text (d ∷ " = " ∷ a ∷ op ∷ b ∷ ";\n" ∷ [])

abbrev call : String → String → String → String → String
call d f a b = text (d ∷ " = " ∷ f ∷ "(" ∷ a ∷ ", " ∷ b ∷ ");\n" ∷ [])

abbrev both : String → String → String → String → String
both d f a b = text (d ∷ " = " ∷ f ∷ "(" ∷ a ∷ ") + " ∷ f ∷ "(" ∷ b ∷ ");\n" ∷ [])

math_case : ℕ → String → String → String → String
math_case zero d a b = call d "ROTL32" a b
math_case (suc zero) d a b = binary d a " & " b
math_case (suc (suc zero)) d a b = binary d a " + " b
math_case (suc (suc (suc zero))) d a b = both d "popcount" a b
math_case (suc (suc (suc (suc zero)))) d a b = both d "clz" a b
math_case (suc (suc (suc (suc (suc zero))))) d a b = call d "ROTR32" a b
math_case (suc (suc (suc (suc (suc (suc zero)))))) d a b = call d "mul_hi" a b
math_case (suc (suc (suc (suc (suc (suc (suc zero))))))) d a b = binary d a " | " b
math_case (suc (suc (suc (suc (suc (suc (suc (suc zero)))))))) d a b = binary d a " * " b
math_case (suc (suc (suc (suc (suc (suc (suc (suc (suc zero))))))))) d a b = binary d a " ^ " b
math_case (suc (suc (suc (suc (suc (suc (suc (suc (suc (suc zero)))))))))) d a b = call d "min" a b
math_case other d a b = no_case

unfoldable pub math : String → String → String → ℕ → String
unfolding math_case
math d a b r = math_case (r % 11) d a b
