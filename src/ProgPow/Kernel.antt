-- ===== src/ProgPow/Kernel.antt =====
-- libprogpow/ProgPow.cpp: `getKern`. The random instructions of the loop are drawn as data and then
-- written, each as the text that the source streams for it at the same place.
pub mod Registers
pub mod Operands
use Prim.Native.String.{String}
use prog_po_w_miner.Common.{
  ℕ, zero, suc, ◌+◌, ◌-◌, ◌*◌, ◌/◌, ◌%◌, List, [], ◌∷◌, ◌++◌, map, get_or, max, leb, ltb,
  if◌then◌else◌,
}
use prog_po_w_miner.Common.Loops.{rounds}
use prog_po_w_miner.Common.Text.{text, to_string}
use prog_po_w_miner.ProgPow.Rng.{Kiss99, kiss99, seed_rnd}
use prog_po_w_miner.ProgPow.Shuffle.{regs, Sequences, shuffle}
use prog_po_w_miner.ProgPow.Header.{
  Kernel, cuda, cl, dag_loads, cnt_cache, cnt_math, preamble, defines, loop_head, consume_head,
}
use prog_po_w_miner.ProgPow.Emit.{merge, math}
use mathlib.Core.List.{flat_map}

-- The instructions that touch the registers, with the registers and draws that they use.
pub data Instr : Type 0 where
  cache_load : (i src dest r : ℕ) → Instr
  random_math : (i src1 src2 r1 dest r2 : ℕ) → Instr
  dag_merge : (dest load r : ℕ) → Instr

-- The generator's variables: the random state and the two counters, and what was drawn so far.
pub record Gen : Type 0 where
  pub rnd_state : Kiss99
  pub dst_cnt : ℕ
  pub cache_cnt : ℕ
  pub drawn : List Instr

module _ (s : Sequences) where
  -- `mix_dst()` and `mix_cache()`: the next register of a sequence, taken round and round.
  abbrev mix_dst : Gen → ℕ
  mix_dst g = get_or s.dst (g.dst_cnt % regs) 0

  abbrev mix_cache : Gen → ℕ
  mix_cache g = get_or s.cache (g.cache_cnt % regs) 0

  unfoldable pub draw_cache_load : ℕ → Gen → Gen
  draw_cache_load i g =
      let (r, st) = kiss99 g.rnd_state in
      record {
        rnd_state = st;
        dst_cnt = g.dst_cnt + 1;
        cache_cnt = g.cache_cnt + 1;
        drawn = g.drawn ++ cache_load i (mix_cache g) (mix_dst g) r ∷ [];
      }

  -- The two sources of a math instruction, from one draw.
  abbrev source1 : ℕ → ℕ
  source1 src_rnd = src_rnd % regs

  abbrev source2 : ℕ → ℕ
  source2 src_rnd =
      if leb (source1 src_rnd) (src_rnd / regs) then src_rnd / regs + 1 else src_rnd / regs

  unfoldable pub draw_math : ℕ → Gen → Gen
  draw_math i g =
      let (r0, st0) = kiss99 g.rnd_state in
      let src_rnd = r0 % ((regs - 1) * regs) in
      let (r1, st1) = kiss99 st0 in
      let (r2, st2) = kiss99 st1 in
      record g {
        rnd_state = st2;
        dst_cnt = g.dst_cnt + 1;
        drawn = g.drawn ++ random_math i (source1 src_rnd) (source2 src_rnd) r1 (mix_dst g) r2 ∷ [];
      }

  unfoldable pub draw_round : ℕ → Gen → Gen
  draw_round i g =
      let loaded = if ltb i cnt_cache then draw_cache_load i g else g in
      if ltb i cnt_math then draw_math i loaded else loaded

  -- The first word of the global load goes to register 0, the others follow the sequence.
  unfoldable pub draw_first_merge : Gen → Gen
  draw_first_merge g =
      let (r, st) = kiss99 g.rnd_state in
      record g { rnd_state = st; drawn = g.drawn ++ dag_merge 0 0 r ∷ [] }

  unfoldable pub draw_merge : ℕ → Gen → Gen
  draw_merge i g =
      let (r, st) = kiss99 g.rnd_state in
      record g {
        rnd_state = st;
        dst_cnt = g.dst_cnt + 1;
        drawn = g.drawn ++ dag_merge (mix_dst g) i r ∷ [];
      }

  -- The body of the loop: the condition holds below the larger of the two counts.
  unfoldable pub draw_loop : Gen
  draw_loop =
      rounds draw_round (max cnt_cache cnt_math) 0
        (record { rnd_state = s.rnd_state; dst_cnt = 0; cache_cnt = 0; drawn = [] })

  -- What follows the loop, drawn into a list of its own.
  unfoldable pub draw_dag : Gen
  draw_dag =
      rounds draw_merge (dag_loads - 1) 1 (draw_first_merge (record draw_loop { drawn = [] }))

  -- All instructions of the kernel, in order.
  unfoldable pub program : List Instr
  program = draw_loop.drawn ++ draw_dag.drawn

abbrev reg : ℕ → String
reg k = text ("mix[" ∷ to_string k ∷ "]" ∷ [])

-- What the source writes for an instruction.
unfoldable pub write : Instr → List String
write (cache_load i src dest r) =
    "// cache load "
    ∷ to_string i
    ∷ "\n"
    ∷ "offset = "
    ∷ reg src
    ∷ " % PROGPOW_CACHE_WORDS;\n"
    ∷ "data = c_dag[offset];\n"
    ∷ merge (reg dest) "data" r
    ∷ []
write (random_math i src1 src2 r1 dest r2) =
    "// random math "
    ∷ to_string i
    ∷ "\n"
    ∷ math "data" (reg src1) (reg src2) r1
    ∷ merge (reg dest) "data" r2
    ∷ []
write (dag_merge dest load r) =
    merge (reg dest) (text ("data_dag.s[" ∷ to_string load ∷ "]" ∷ [])) r ∷ []

-- `PROGPOW_PERIOD`
abbrev pub period : ℕ
period = 10

unfoldable pub sequences : ℕ → Sequences
sequences block_number = shuffle (seed_rnd (block_number / period))

unfoldable pub get_kern : ℕ → Kernel → String
get_kern block_number kern =
    let s = sequences block_number in
    text (
      preamble kern
      ++ (defines
          ++ (loop_head kern (block_number / period)
              ++ (flat_map write (draw_loop s).drawn
                  ++ (consume_head kern
                      ++ (flat_map write (draw_dag s).drawn ++ "}\n" ∷ "\n" ∷ []))))))
