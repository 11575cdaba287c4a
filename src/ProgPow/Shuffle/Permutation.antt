-- ===== src/ProgPow/Shuffle/Permutation.antt =====
-- The shuffled sequences of libprogpow/ProgPow.cpp are permutations of the register numbers.
use prog_po_w_miner.Common.{
  ℕ, zero, suc, ◌+◌, ◌%◌, ◌≤◌, ◌<◌, ◌≡◌, refl, ◌∙◌, List, [], ◌∷◌, length, get_or, set, length-set,
  arith,
}
use prog_po_w_miner.ProgPow.Rng.{Kiss99, kiss99}
use prog_po_w_miner.ProgPow.Shuffle.{
  regs, swap, Sequences, shuffle_round, shuffle_down, iota, shuffle,
}
use mathlib.Core.List.{Perm}
use mathlib.Core.List.Perm

-- Exchanging the head with an element of the tail.
head-perm :
    (x : ℕ) (xs : List ℕ) (j : ℕ) → j < length xs → Perm (get_or xs j 0 ∷ set xs j x) (x ∷ xs)
head-perm x [] j h = absurd (omega arith)
head-perm x (y ∷ ys) zero h = Perm.swap x y ys
head-perm x (y ∷ ys) (suc j) h =
    Perm.trans (Perm.swap y (get_or ys j 0) (set ys j x))
      (Perm.trans (Perm.cons y (head-perm x ys j (omega arith))) (Perm.swap x y ys))

pub swap-perm : (xs : List ℕ) (i j : ℕ) → i < length xs → j ≤ i → Perm (swap xs i j) xs
unfolding swap
swap-perm [] i j h k = absurd (omega arith)
swap-perm (x ∷ xs) zero zero h k = Perm.refl (x ∷ xs)
swap-perm (x ∷ xs) zero (suc j) h k = absurd (omega arith)
swap-perm (x ∷ xs) (suc i) zero h k = head-perm x xs i (omega arith)
swap-perm (x ∷ xs) (suc i) (suc j) h k = Perm.cons x (swap-perm xs i j (omega arith) (omega arith))

pub length-swap : (xs : List ℕ) (i j : ℕ) → length (swap xs i j) ≡ length xs
unfolding swap
length-swap xs i j =
    length-set (set xs i (get_or xs j 0)) j (get_or xs i 0) ∙ length-set xs i (get_or xs j 0)

-- Both sequences are rearrangements of `xs`, of its length.
pub record Shuffled (xs : List ℕ) (s : Sequences) : Type 0 where
  pub dst_perm : Perm s.dst xs
  pub cache_perm : Perm s.cache xs
  pub dst_size : length s.dst ≡ length xs
  pub cache_size : length s.cache ≡ length xs

shuffle_round-Shuffled :
    (xs : List ℕ) (i : ℕ) (s : Sequences)
    → i < length xs
    → Shuffled xs s
    → Shuffled xs (shuffle_round i s)
unfolding shuffle_round
shuffle_round-Shuffled xs i s h v =
    let st = (kiss99 s.rnd_state).1 in
    let j1 = (kiss99 s.rnd_state).0 % (i + 1) in
    let j2 = (kiss99 st).0 % (i + 1) in
    record {
      dst_perm = Perm.trans (swap-perm s.dst i j1 (omega arith) (omega arith)) v.dst_perm;
      cache_perm = Perm.trans (swap-perm s.cache i j2 (omega arith) (omega arith)) v.cache_perm;
      dst_size = length-swap s.dst i j1 ∙ v.dst_size;
      cache_size = length-swap s.cache i j2 ∙ v.cache_size;
    }

shuffle_down-Shuffled :
    (xs : List ℕ) (n : ℕ) (s : Sequences)
    → n < length xs
    → Shuffled xs s
    → Shuffled xs (shuffle_down n s)
unfolding shuffle_down
shuffle_down-Shuffled xs zero s h v = v
shuffle_down-Shuffled xs (suc n) s h v =
    shuffle_down-Shuffled xs n _ (omega arith) (shuffle_round-Shuffled xs (suc n) s h v)

-- From every state of the random generator, the shuffle leaves both sequences a rearrangement of the
-- 32 register numbers 0, …, 31: none is lost or repeated.
pub shuffle-perm : (st : Kiss99) → Shuffled (iota 0 regs) (shuffle st)
unfolding shuffle iota
shuffle-perm st = shuffle_down-Shuffled (iota 0 regs) 31 _ (omega arith) (record {
  dst_perm = Perm.refl (iota 0 regs);
  cache_perm = Perm.refl (iota 0 regs);
  dst_size = refl;
  cache_size = refl;
})
