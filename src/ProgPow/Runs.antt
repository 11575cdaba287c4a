-- ===== src/ProgPow/Runs.antt =====
-- Runs of libprogpow/ProgPow.cpp on the vectors of test-vectors.md, and the theorems at a block.
use prog_po_w_miner.Common.{◌≡◌, refl, [], ◌∷◌, map, take, All, arith}
use prog_po_w_miner.ProgPow.Rng.{fnv1a, Kiss99, kiss99, seed_rnd}
use prog_po_w_miner.ProgPow.Shuffle.{iota, regs, shuffle, shuffle_down, shuffle_round, swap}
use prog_po_w_miner.ProgPow.Shuffle.Permutation.{Shuffled, shuffle-perm}
use prog_po_w_miner.ProgPow.Kernel.{program, sequences}
use prog_po_w_miner.ProgPow.Kernel.Registers.{dest_of, program-covers_registers}
use prog_po_w_miner.ProgPow.Kernel.Operands.{IsValid, program-IsValid}
use prog_po_w_miner.ProgPow.Emit.{merge, math}
use prog_po_w_miner.Common.Text.{text, to_string}
use mathlib.Core.List.{Mem}

fnv1a_vectors :
    (fnv1a 0x811c9dc5 0xddd0a47b ≡ 0xd37ee61a)
    × (fnv1a 0xd37ee61a 0xee304846 ≡ 0xdedc7ad4)
    × (fnv1a 0xdedc7ad4 0 ≡ 0xa9155bbc)
unfolding fnv1a
fnv1a_vectors = (refl, refl, refl)

abbrev first_state : Kiss99
first_state = record { z = 362436069; w = 521288629; jsr = 123456789; jcong = 380116160 }

kiss99_vectors :
    ((kiss99 first_state).0 ≡ 769445856) × ((kiss99 (kiss99 first_state).1).0 ≡ 742012328)
unfolding kiss99
kiss99_vectors = (refl, refl)

-- The registers of the example in test/kernel.cu, for program seed 600.
shuffle_vector :
    take 11 (shuffle (seed_rnd 600)).cache ≡ 26 ∷ 30 ∷ 1 ∷ 19 ∷ 11 ∷ 21 ∷ 15 ∷ 18 ∷ 3 ∷ 17 ∷ 31 ∷ []
unfolding shuffle shuffle_down shuffle_round swap iota seed_rnd fnv1a kiss99
shuffle_vector = refl

merge_run : merge "a" "b" 0x1e0001 ≡ "a = ROTL32(a, 31) ^ b;\n"
unfolding merge text to_string
merge_run = refl

math_run : math "data" "x" "y" 10 ≡ "data = min(x, y);\n"
unfolding math text
math_run = refl

shuffle-perm_example : Shuffled (iota 0 regs) (shuffle first_state)
shuffle-perm_example = shuffle-perm first_state

program-covers_registers_example : Mem 31 (map dest_of (program (sequences 6000)))
program-covers_registers_example = program-covers_registers 6000 31 (omega arith)

program-IsValid_example : All IsValid (program (sequences 6000))
program-IsValid_example = program-IsValid 6000
