-- ===== src/ProgPow/Shuffle.antt =====
-- libprogpow/ProgPow.cpp: the sequences of merge destinations and of cache sources.
pub mod Permutation
use prog_po_w_miner.Common.{
  ℕ, zero, suc, ◌+◌, ◌-◌, ◌%◌, ◌≤◌, ◌<◌, ◌≡◌, refl, List, [], ◌∷◌, length, get_or, set, length-set,
  arith,
}
use prog_po_w_miner.ProgPow.Rng.{Kiss99, kiss99}
use mathlib.Core.List.{Perm}
use mathlib.Core.List.Perm

abbrev pub regs : ℕ
regs = 32

-- `swap(xs[i], xs[j])`
unfoldable pub swap : List ℕ → ℕ → ℕ → List ℕ
swap xs i j = let t = get_or xs i 0 in set (set xs i (get_or xs j 0)) j t

pub record Sequences : Type 0 where
  pub dst : List ℕ
  pub cache : List ℕ
  pub rnd_state : Kiss99

-- One round of the shuffle: two draws, the first for the destinations, the second for the cache.
unfoldable pub shuffle_round : ℕ → Sequences → Sequences
shuffle_round i s =
    let (r1, st1) = kiss99 s.rnd_state in
    let dst = swap s.dst i (r1 % (i + 1)) in
    let (r2, st2) = kiss99 st1 in
    record { dst = dst; cache = swap s.cache i (r2 % (i + 1)); rnd_state = st2 }

-- for (int i = n; i > 0; i--)
unfoldable pub shuffle_down : ℕ → Sequences → Sequences
shuffle_down zero s = s
shuffle_down (suc i) s = shuffle_down i (shuffle_round (suc i) s)

-- k, k + 1, …, k + n - 1
unfoldable pub iota : ℕ → ℕ → List ℕ
iota k zero = []
iota k (suc n) = k ∷ iota (k + 1) n

unfoldable pub shuffle : Kiss99 → Sequences
shuffle st =
    shuffle_down (regs - 1) (record { dst = iota 0 regs; cache = iota 0 regs; rnd_state = st })
