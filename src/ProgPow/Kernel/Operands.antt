-- ===== src/ProgPow/Kernel/Operands.antt =====
-- What the generated instructions of libprogpow/ProgPow.cpp name: registers, loads and draws.
use prog_po_w_miner.Common.{
  ℕ, zero, suc, ◌-◌, ◌*◌, ◌%◌, ◌/◌, ◌<◌, ◌≡◌, ◌≢◌, List, [], ◌∷◌, length, get_or, All, All-append,
  arith, ltb, if_elim,
}
use prog_po_w_miner.Common.Loops.{rounds_keep}
use prog_po_w_miner.ProgPow.Rng.{IsU32, kiss99, seed_rnd, IsState, kiss99-IsState, seed_rnd-IsState}
use prog_po_w_miner.ProgPow.Shuffle.{regs, Sequences, iota, shuffle, shuffle_down, shuffle_round}
use prog_po_w_miner.ProgPow.Shuffle.Permutation.{shuffle-perm}
use prog_po_w_miner.ProgPow.Header.{dag_loads, cnt_cache, cnt_math}
use prog_po_w_miner.ProgPow.Kernel.{
  Instr, cache_load, random_math, dag_merge, Gen, draw_cache_load, draw_math, draw_round,
  draw_merge, draw_first_merge, draw_loop, draw_dag, program, sequences, period,
}
use prog_po_w_miner.ProgPow.Kernel.Registers.{iota_range}
use mathlib.Core.List.{Mem, Perm, mem-cons}
use mathlib.Core.List.Perm
use mathlib.Core.Logic.Or
use mathlib.Core.Path.{refl}

-- The registers exist, the two sources of a math instruction differ, the load is one of the words that
-- a lane reads, and every draw is a 32-bit word.
abbrev pub IsValid : Instr → Type 0
IsValid (cache_load i src dest r) = (src < regs) × (dest < regs) × IsU32 r
IsValid (random_math i src1 src2 r1 dest r2) =
    (src1 < regs) × (src2 < regs) × (src1 ≢ src2) × IsU32 r1 × (dest < regs) × IsU32 r2
IsValid (dag_merge dest load r) = (dest < regs) × (load < dag_loads) × IsU32 r

-- The sequences name registers at every position.
pub record InRange (s : Sequences) : Type 0 where
  pub dst_fits : (k : ℕ) → get_or s.dst (k % regs) 0 < regs
  pub cache_fits : (k : ℕ) → get_or s.cache (k % regs) 0 < regs

get_or-mem : (xs : List ℕ) (i : ℕ) → i < length xs → Mem (get_or xs i 0) xs
get_or-mem [] i h = absurd (omega arith)
get_or-mem (x ∷ xs) zero h = mem-cons.1 (Or.inl refl)
get_or-mem (x ∷ xs) (suc i) h = mem-cons.1 (Or.inr (get_or-mem xs i (omega arith)))

perm-fits :
    (xs : List ℕ)
    → Perm xs (iota 0 regs)
    → length xs ≡ regs
    → (k : ℕ) → get_or xs (k % regs) 0 < regs
perm-fits xs p e k =
    (iota_range _ 0 regs ((Perm.mem_iff p).0 (get_or-mem xs (k % regs) (omega arith)))).1

record Inv (g : Gen) : Type 0 where
  drawn_valid : All IsValid g.drawn
  state_fits : IsState g.rnd_state

module _ (s : Sequences) (v : InRange s) where
  draw_cache_load-Inv : (i : ℕ) (g : Gen) → Inv g → Inv (draw_cache_load s i g)
  unfolding draw_cache_load
  draw_cache_load-Inv i g h =
      let (r_fits, st_fits) = kiss99-IsState g.rnd_state h.state_fits in
      record {
        drawn_valid =
            All-append IsValid g.drawn _ h.drawn_valid
              ((v.cache_fits g.cache_cnt, v.dst_fits g.dst_cnt, r_fits), tt);
        state_fits = st_fits;
      }

  draw_math-Inv : (i : ℕ) (g : Gen) → Inv g → Inv (draw_math s i g)
  unfolding draw_math
  draw_math-Inv i g h =
      let (_, st0_fits) = kiss99-IsState g.rnd_state h.state_fits in
      let (r1_fits, st1_fits) = kiss99-IsState _ st0_fits in
      let (r2_fits, st2_fits) = kiss99-IsState _ st1_fits in
      let src_rnd = (kiss99 g.rnd_state).0 % ((regs - 1) * regs) in
      record {
        drawn_valid =
            All-append IsValid g.drawn _ h.drawn_valid (
              (omega arith, ground arith, ground arith, r1_fits, v.dst_fits g.dst_cnt, r2_fits),
              tt,
            );
        state_fits = st2_fits;
      }

  draw_round-Inv : (i : ℕ) (g : Gen) → Inv g → Inv (draw_round s i g)
  unfolding draw_round
  draw_round-Inv i g h =
      let loaded = if_elim Inv (ltb i cnt_cache) (draw_cache_load-Inv i g h) h in
      if_elim Inv (ltb i cnt_math) (draw_math-Inv i _ loaded) loaded

  draw_merge-Inv : (i : ℕ) (g : Gen) → i < dag_loads → Inv g → Inv (draw_merge s i g)
  unfolding draw_merge
  draw_merge-Inv i g b h =
      let (r_fits, st_fits) = kiss99-IsState g.rnd_state h.state_fits in
      record {
        drawn_valid =
            All-append IsValid g.drawn _ h.drawn_valid ((v.dst_fits g.dst_cnt, b, r_fits), tt);
        state_fits = st_fits;
      }

  draw_first_merge-Inv : (g : Gen) → Inv g → Inv (draw_first_merge s g)
  unfolding draw_first_merge
  draw_first_merge-Inv g h =
      let (r_fits, st_fits) = kiss99-IsState g.rnd_state h.state_fits in
      record {
        drawn_valid =
            All-append IsValid g.drawn _ h.drawn_valid ((omega arith, omega arith, r_fits), tt);
        state_fits = st_fits;
      }

  draw_loop-Inv : IsState s.rnd_state → Inv (draw_loop s)
  unfolding draw_loop
  draw_loop-Inv h =
      rounds_keep (draw_round s) (λ i g. Inv g) 20 0 20 _ refl
        (record { drawn_valid = tt; state_fits = h }) (λ i g a b k. draw_round-Inv i g k)

  draw_dag-Inv : IsState s.rnd_state → Inv (draw_dag s)
  unfolding draw_dag
  draw_dag-Inv h =
      rounds_keep (draw_merge s) (λ i g. Inv g) 3 1 4 _ refl
        (draw_first_merge-Inv _
          (record { drawn_valid = tt; state_fits = (draw_loop-Inv h).state_fits }))
        (λ i g a b k. draw_merge-Inv i g b k)

shuffle_down-IsState :
    (n : ℕ) (s : Sequences) → IsState s.rnd_state → IsState (shuffle_down n s).rnd_state
unfolding shuffle_down shuffle_round
shuffle_down-IsState zero s h = h
shuffle_down-IsState (suc n) s h =
    shuffle_down-IsState n _ (kiss99-IsState _ (kiss99-IsState s.rnd_state h).1).1

-- Whatever the block, every instruction of the program is valid.
pub program-IsValid : (block_number : ℕ) → All IsValid (program (sequences block_number))
unfolding program sequences shuffle iota
program-IsValid block_number =
    let st = seed_rnd (block_number / period) in
    let p = shuffle-perm st in
    let v : InRange (shuffle st) = record {
      dst_fits = perm-fits _ p.dst_perm p.dst_size;
      cache_fits = perm-fits _ p.cache_perm p.cache_size;
    } in
    let h = shuffle_down-IsState 31 _ (seed_rnd-IsState (block_number / period)) in
    All-append IsValid _ _ (draw_loop-Inv (shuffle st) v h).drawn_valid
      (draw_dag-Inv (shuffle st) v h).drawn_valid
