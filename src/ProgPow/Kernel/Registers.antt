-- ===== src/ProgPow/Kernel/Registers.antt =====
-- Which registers the generated loop of libprogpow/ProgPow.cpp writes and loads from the cache.
use prog_po_w_miner.Common.{
  ℕ, zero, suc, ◌+◌, ◌%◌, ◌/◌, ◌≤◌, ◌<◌, ◌≡◌, refl, sym, ap, ◌∙◌, List, [], ◌∷◌, ◌++◌, map, length,
  get_or, arith, length-append,
}
use prog_po_w_miner.Common.Loops.{rounds}
use prog_po_w_miner.ProgPow.Rng.{seed_rnd}
use prog_po_w_miner.ProgPow.Shuffle.{regs, Sequences, iota, shuffle}
use prog_po_w_miner.ProgPow.Shuffle.Permutation.{shuffle-perm}
use prog_po_w_miner.ProgPow.Kernel.{
  Instr, cache_load, random_math, dag_merge, draw_loop, draw_dag, draw_round, draw_math,
  draw_cache_load, draw_first_merge, draw_merge, program, sequences, period,
}
use mathlib.Core.List.{
  Mem, Mem-prop, not-mem-nil, Nodup-nil, Nodup-cons, Nodup, mem-append, mem-cons, append_assoc,
}
use mathlib.Core.List.Perm
use mathlib.Core.List.Nodup
use mathlib.Core.Logic.Or
use mathlib.Core.Path.{ap₂}
use mathlib.Core.HLevel.{×_prop}
use native.Mathlib.Bridge.{le_prop}
use native.Mathlib.Decide.{ℕ_discrete}

-- The register that an instruction merges into.
abbrev pub dest_of : Instr → ℕ
dest_of (cache_load i src dest r) = dest
dest_of (random_math i src1 src2 r1 dest r2) = dest
dest_of (dag_merge dest load r) = dest

-- The registers whose values address the cache, in order.
abbrev pub cache_sources : List Instr → List ℕ
cache_sources [] = []
cache_sources (cache_load i src dest r ∷ p) = src ∷ cache_sources p
cache_sources (random_math i src1 src2 r1 dest r2 ∷ p) = cache_sources p
cache_sources (dag_merge dest load r ∷ p) = cache_sources p

pick : List ℕ → ℕ → ℕ
pick xs k = get_or xs (k % regs) 0

dests-program :
    (s : Sequences)
    → map dest_of (program s) ≡ map (pick s.dst) (iota 0 31) ++ (0 ∷ map (pick s.dst) (iota 31 3))
unfolding program draw_loop draw_dag draw_round draw_math draw_cache_load draw_first_merge
    draw_merge rounds iota pick
dests-program s = refl

cache_sources-program : (s : Sequences) → cache_sources (program s) ≡ map (pick s.cache) (iota 0 11)
unfolding program draw_loop draw_dag draw_round draw_math draw_cache_load draw_first_merge
    draw_merge rounds iota pick
cache_sources-program s = refl

get_or-append : (ys xs : List ℕ) (x : ℕ) → get_or (ys ++ (x ∷ xs)) (length ys) 0 ≡ x
get_or-append [] xs x = refl
get_or-append (y ∷ ys) xs x = get_or-append ys xs x

-- Picking by all positions gives the list back.
map-pick :
    (xs ys : List ℕ) (k n : ℕ)
    → length ys ≡ k
    → length xs ≡ n
    → k + n ≤ regs
    → map (pick (ys ++ xs)) (iota k n) ≡ xs
unfolding iota pick
map-pick [] ys k zero e f h = refl
map-pick [] ys k (suc n) e f h = absurd (omega arith)
map-pick (x ∷ xs) ys k zero e f h = absurd (omega arith)
map-pick (x ∷ xs) ys k (suc n) e f h = ap₂ ◌∷◌ here (
    rw (append_assoc ys (x ∷ []) xs) at (
      map-pick xs (ys ++ (x ∷ [])) (k + 1) n (omega (arith, length-append ys (x ∷ [])))
        (omega arith) (omega arith)))
  where
    in_range : k % regs ≡ k
    in_range = omega arith

    here : pick (ys ++ (x ∷ xs)) k ≡ x
    here = ap (λ (i : ℕ). get_or (ys ++ (x ∷ xs)) i 0) (in_range ∙ sym e) ∙ get_or-append ys xs x

mem-iota : (r k n : ℕ) → k ≤ r → r < k + n → Mem r (iota k n)
unfolding iota
mem-iota r k zero a b = absurd (omega arith)
mem-iota r k (suc n) a b = elim (ℕ_discrete r k) [
  | yes e ↦ mem-cons.1 (Or.inl e)
  | no e ↦ mem-cons.1 (Or.inr (mem-iota r (k + 1) n (omega arith) (omega arith)))
]

-- A last element stays in the list when another is put before it and more behind it.
mem_moved : (xs ys : List ℕ) (x y r : ℕ) → Mem r (xs ++ (x ∷ [])) → Mem r (xs ++ (y ∷ x ∷ ys))
mem_moved xs ys x y r h =
    Or.elim Mem-prop ((mem-append {s = xs} {t = x ∷ []}).0 h)
      (λ m. (mem-append {s = xs} {t = y ∷ x ∷ ys}).1 (Or.inl m))
      (λ m.
        (mem-append {s = xs} {t = y ∷ x ∷ ys}).1
          (Or.inr ((mem-cons {b = y} {l = x ∷ ys}).1 (Or.inr (last m)))))
  where
    last : Mem r (x ∷ []) → Mem r (x ∷ ys)
    last m =
        Or.elim Mem-prop ((mem-cons {b = x} {l = []}).0 m)
          (λ e. (mem-cons {b = x} {l = ys}).1 (Or.inl e)) (λ n. absurd (not-mem-nil n))

-- The destinations come round to the start of the sequence after all 32.
mem_early :
    (xs : List ℕ) (r : ℕ)
    → Mem r (map (pick xs) (iota 0 regs))
    → Mem r (map (pick xs) (iota 0 31) ++ (0 ∷ map (pick xs) (iota 31 3)))
unfolding iota
mem_early xs r h =
    mem_moved (map (pick xs) (iota 0 31)) (map (pick xs) (iota 32 2)) (pick xs 31) 0 r h

first_eleven :
    (xs : List ℕ) → Nodup (map (pick xs) (iota 0 regs)) → Nodup (map (pick xs) (iota 0 11))
unfolding iota
first_eleven xs h = Nodup.of_append_left (map (pick xs) (iota 11 21)) h

pub iota_range : (r k n : ℕ) → Mem r (iota k n) → (k ≤ r) × (r < k + n)
unfolding iota
iota_range r k zero m = absurd (not-mem-nil m)
iota_range r k (suc n) m =
    Or.elim (×_prop le_prop le_prop) (mem-cons.0 m) (λ e. omega arith)
      (λ t. omega (arith, iota_range r (k + 1) n t))

iota-Nodup : (k n : ℕ) → Nodup (iota k n)
unfolding iota
iota-Nodup k zero = Nodup-nil
iota-Nodup k (suc n) =
    Nodup-cons.1 (λ m. absurd (omega (arith, (iota_range k (k + 1) n m).0)), iota-Nodup (k + 1) n)

-- Whatever the block, the program merges new data into each of the 32 registers.
pub program-covers_registers :
    (block_number r : ℕ) → r < regs → Mem r (map dest_of (program (sequences block_number)))
unfolding sequences iota
program-covers_registers block_number r h =
    let v = shuffle-perm (seed_rnd (block_number / period)) in
    let xs = (shuffle (seed_rnd (block_number / period))).dst in
    let here : Mem r xs = (Perm.mem_iff v.dst_perm).1 (mem-iota r 0 regs (omega arith) h) in
    rw (dests-program (shuffle (seed_rnd (block_number / period))))
      (mem_early xs r (rw (map-pick xs [] 0 regs refl v.dst_size (omega arith)) here))

-- Whatever the block, no two of the 11 cache loads take their address from one register.
cache_sources-Nodup : (block_number : ℕ) → Nodup (cache_sources (program (sequences block_number)))
unfolding sequences iota
cache_sources-Nodup block_number =
    let v = shuffle-perm (seed_rnd (block_number / period)) in
    let xs = (shuffle (seed_rnd (block_number / period))).cache in
    let distinct : Nodup xs = Perm.nodup (Perm.symm v.cache_perm) (iota-Nodup 0 regs) in
    rw (cache_sources-program (shuffle (seed_rnd (block_number / period))))
      (first_eleven xs (rw (map-pick xs [] 0 regs refl v.cache_size (omega arith)) distinct))
