-- ===== src/Mining/Epochs/Search.antt =====
-- `EthashAux::toEpoch` of libethcore/EthashAux.cpp finds the first epoch of a seed hash.
use prog_po_w_miner.Common.{
  ℕ, zero, suc, ◌+◌, ◌<◌, ◌≡◌, ◌≢◌, ◌⊎◌, refl, sym, ◌∙◌, false, ◌==◌, ==_iff, Bool-cases, inl, inr,
  arith,
}
use prog_po_w_miner.Common.Result.{ok, err}
use prog_po_w_miner.Mining.Epochs.{Epochs, invalid_argument, max_epoch, search, to_epoch}

module _ (sha3 : ℕ → ℕ) where
  -- The seed hash of an epoch, from the one of epoch 0.
  unfoldable pub seed_after : ℕ → ℕ → ℕ
  seed_after zero h = h
  seed_after (suc n) h = seed_after n (sha3 h)

  -- `e` is the first of the `n` epochs behind that of `h` with the given seed.
  pub record First (n h seed e : ℕ) : Type 0 where
    pub below : e < n
    pub found : seed_after e h ≡ seed
    pub none_before : (j : ℕ) → j < e → seed_after j h ≢ seed

  search_lem :
      (n h seed e : ℕ)
      → ((k : ℕ) × First n h seed k × (search sha3 n h seed e ≡ e + k))
        ⊎ (((j : ℕ) → j < n → seed_after j h ≢ seed) × (search sha3 n h seed e ≡ e + n))
  unfolding search seed_after
  search_lem zero h seed e = inr (λ j l. absurd (omega (arith, l)), omega arith)
  search_lem (suc n) h seed e = elim (Bool-cases (h == seed)) [
    | inl here ↦ inl (
      0,
      record {
        below = omega arith;
        found = (==_iff h seed).0 here;
        none_before = λ j l. absurd (omega (arith, l));
      },
      rw here (omega arith),
    )
    | inr other ↦
        let ne : h ≢ seed = λ q. absurd (ground (arith, q, other)) in
        elim (search_lem n (sha3 h) seed (e + 1)) [
          | inl (k, f, r) ↦ inl (
            suc k,
            record {
              below = omega (arith, f.below);
              found = f.found;
              none_before = before k (λ j l. f.none_before j l) ne;
            },
            rw other (omega (arith, r)),
          )
          | inr (none, r) ↦ inr (before n none ne, rw other (omega (arith, r)))
        ]
  ]
    where
      before :
          (k : ℕ)
          → ((j : ℕ) → j < k → seed_after j (sha3 h) ≢ seed)
          → h ≢ seed
          → (j : ℕ) → j < suc k
          → seed_after j h ≢ seed
      before k none ne zero l = ne
      before k none ne (suc j) l = none j (omega (arith, l))

  -- A seed hash of one of the first 2048 epochs gives the first epoch that has it, whatever was asked
  -- before, and leaves a cache from which the next answers are right again.
  pub to_epoch-First :
      (seed k : ℕ) (s : Epochs)
      → First max_epoch 0 s.cached_seed s.cached_epoch
      → k < max_epoch
      → seed_after k 0 ≡ seed
      → (e : ℕ) × (t : Epochs) × (to_epoch sha3 seed s ≡ ok (e, t))
        × First max_epoch 0 seed e
        × First max_epoch 0 t.cached_seed t.cached_epoch
  unfolding to_epoch
  to_epoch-First seed k s v small has = elim (Bool-cases (seed == s.cached_seed)) [
    | inl hit ↦
        let same : s.cached_seed ≡ seed = sym ((==_iff seed s.cached_seed).0 hit) in
        (
          s.cached_epoch,
          s,
          rw hit refl,
          record {
            below = v.below;
            found = v.found ∙ same;
            none_before = λ j l q. v.none_before j l (q ∙ sym same);
          },
          v,
        )
    | inr miss ↦ elim (search_lem max_epoch 0 seed 0) [
      | inl (e, f, r) ↦
          let at : search sha3 max_epoch 0 seed 0 ≡ e = omega (arith, r) in
          let inside : (e == max_epoch) ≡ false = ground (arith, f.below) in
          (e, record { cached_epoch = e; cached_seed = seed }, rw (miss, at, inside) refl, f, f)
      | inr (none, r) ↦ absurd (none k small has)
    ]
  ]

  -- Any other seed hash is refused.
  to_epoch-refuses :
      (seed : ℕ) (s : Epochs)
      → First max_epoch 0 s.cached_seed s.cached_epoch
      → ((j : ℕ) → j < max_epoch → seed_after j 0 ≢ seed)
      → to_epoch sha3 seed s ≡ err invalid_argument
  unfolding to_epoch
  to_epoch-refuses seed s v none = elim (Bool-cases (seed == s.cached_seed)) [
    | inl hit ↦
        let same : s.cached_seed ≡ seed = sym ((==_iff seed s.cached_seed).0 hit) in
        absurd (none s.cached_epoch v.below (v.found ∙ same))
    | inr miss ↦ elim (search_lem max_epoch 0 seed 0) [
      | inl (k, f, r) ↦ absurd (none k f.below f.found)
      | inr (away, r) ↦
          let at : search sha3 max_epoch 0 seed 0 ≡ max_epoch = omega (arith, r) in
          rw (miss, at) refl
    ]
  ]
