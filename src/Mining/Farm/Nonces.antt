-- ===== src/Mining/Farm/Nonces.antt =====
-- The ranges of nonces of the miners of libethcore/Farm.h (`get_start_nonce` of libethcore/Miner.h).
use prog_po_w_miner.Common.{
  ℕ, zero, suc, ◌+◌, ◌*◌, ◌≤◌, ◌<◌, ◌%◌, ◌^◌, ◌≡◌, ◌≢◌, ap, List, [], ◌∷◌, Option, none, some,
  length, get_elem?, arith,
}
use prog_po_w_miner.Mining.Work.{Miner, get_start_nonce}
use prog_po_w_miner.Mining.Farm.{Farm}
use prog_po_w_miner.Mining.Farm.Steps.{Steps, Numbered, IsValid}
use prog_po_w_miner.Mining.Farm.Validity.{Steps-IsValid}

number_of : ℕ → Option Miner → ℕ
number_of d none = d
number_of d (some m) = m.index

Numbered-get :
    (ms : List Miner) (k i : ℕ) (m : Miner)
    → Numbered k ms
    → get_elem? ms i ≡ some m
    → m.index ≡ k + i
unfolding number_of
Numbered-get [] k i m v h = cc
Numbered-get (m' ∷ ms) k zero m (e, v) h =
    let same : m'.index ≡ m.index = ap (number_of m'.index) h in omega (arith, same, e)
Numbered-get (m' ∷ ms) k (suc i) m (e, v) h = omega (arith, Numbered-get ms (suc k) i m v h)

get_elem?-lt : (ms : List Miner) (i : ℕ) (m : Miner) → get_elem? ms i ≡ some m → i < length ms
get_elem?-lt [] i m h = cc
get_elem?-lt (m' ∷ ms) zero m h = omega arith
get_elem?-lt (m' ∷ ms) (suc i) m h = omega (arith, get_elem?-lt ms i m h)

-- Two ranges of 2 ^ 40 numbers each, at different multiples of 2 ^ 40 below 2 ^ 64.
ranges_apart :
    (s a b x y : ℕ)
    → s < 2 ^ 64
    → a < 2 ^ 24
    → b < 2 ^ 24
    → a ≢ b
    → x < 2 ^ 40
    → y < 2 ^ 40
    → (s + (a * 2 ^ 40 + x)) % 2 ^ 64 ≢ (s + (b * 2 ^ 40 + y)) % 2 ^ 64
ranges_apart s a b x y hs ha hb ne hx hy e = absurd (omega arith)

-- However the farm came to its state, two of its miners never try the same nonce of a job, if there
-- are at most 2 ^ 24 miners and each tries at most 2 ^ 40 nonces.
pub Steps-nonces_apart :
    (f g : Farm) (i j x y : ℕ) (a b : Miner)
    → IsValid f
    → Steps f g
    → g.nonce_scrambler < 2 ^ 64
    → length g.miners ≤ 2 ^ 24
    → get_elem? g.miners i ≡ some a
    → get_elem? g.miners j ≡ some b
    → i ≢ j
    → x < 2 ^ 40
    → y < 2 ^ 40
    → (get_start_nonce g.nonce_scrambler a + x) % 2 ^ 64
      ≢ (get_start_nonce g.nonce_scrambler b + y) % 2 ^ 64
unfolding get_start_nonce
Steps-nonces_apart f g i j x y a b v ss hs few ha hb ne hx hy =
    let w = Steps-IsValid ss v in
    let ia : a.index ≡ i = omega (arith, Numbered-get g.miners 0 i a w.numbered ha) in
    let ib : b.index ≡ j = omega (arith, Numbered-get g.miners 0 j b w.numbered hb) in
    let la = get_elem?-lt g.miners i a ha in
    let lb = get_elem?-lt g.miners j b hb in
    λ e.
      ranges_apart g.nonce_scrambler i j x y hs (omega (arith, la)) (omega (arith, lb)) ne hx hy
        (omega (arith, ap (λ (k : ℕ). k) e, ia, ib, la, lb))
