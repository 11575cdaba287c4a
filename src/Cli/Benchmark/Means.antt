-- ===== src/Cli/Benchmark/Means.antt =====
-- The means that `doBenchmark` of ethminer/MinerAux.h prints lie between the least and the greatest rate.
use prog_po_w_miner.Common.{
  ℕ, suc, ◌+◌, ◌*◌, ◌/◌, ◌^◌, ◌<◌, ◌≤◌, ◌≡◌, refl, sym, ap, ◌-◌, inl, inr, ◌∙◌, List, [], ◌∷◌, some,
  length, get_or, leb, ltb, true, false, ◌==◌, All, Bool-cases, arith,
}
use prog_po_w_miner.Cli.Benchmark.{insert, sort, total, without_last, inner, back, Summary, summary}

-- The sum without a bound
abbrev pub sum : List ℕ → ℕ
sum [] = 0
sum (x ∷ xs) = x + sum xs

total_lem : (xs : List ℕ) → sum xs < 2 ^ 64 → total xs ≡ sum xs
unfolding total
total_lem [] h = refl
total_lem (x ∷ xs) h = omega (arith, h, total_lem xs (omega (arith, h)))

abbrev Sorted : List ℕ → Type 0
Sorted [] = Unit
Sorted (x ∷ xs) = All (λ y. x ≤ y) xs × Sorted xs

All-trans : (x y : ℕ) (xs : List ℕ) → x ≤ y → All (λ z. y ≤ z) xs → All (λ z. x ≤ z) xs
All-trans x y [] h k = tt
All-trans x y (z ∷ zs) h (k, ks) = (omega (arith, h, k), All-trans x y zs h ks)

insert-All : (P : ℕ → Type 0) (x : ℕ) (ys : List ℕ) → P x → All P ys → All P (insert x ys)
unfolding insert
insert-All P x [] p k = (p, tt)
insert-All P x (y ∷ ys) p (q, k) = elim (Bool-cases (leb x y)) [
  | inl first ↦ rw first (p, (q, k))
  | inr after ↦ rw after (q, insert-All P x ys p k)
]

insert-Sorted : (x : ℕ) (ys : List ℕ) → Sorted ys → Sorted (insert x ys)
unfolding insert
insert-Sorted x [] k = (tt, tt)
insert-Sorted x (y ∷ ys) (low, k) = elim (Bool-cases (leb x y)) [
  | inl first ↦
      rw first ((ground (arith, first), All-trans x y ys (ground (arith, first)) low), (low, k))
  | inr after ↦
      rw after (insert-All (λ z. y ≤ z) x ys (ground (arith, after)) low, insert-Sorted x ys k)
]

sort-Sorted : (xs : List ℕ) → Sorted (sort xs)
unfolding sort
sort-Sorted [] = tt
sort-Sorted (x ∷ xs) = insert-Sorted x (sort xs) (sort-Sorted xs)

sum-insert : (x : ℕ) (ys : List ℕ) → sum (insert x ys) ≡ x + sum ys
unfolding insert
sum-insert x [] = refl
sum-insert x (y ∷ ys) = elim (Bool-cases (leb x y)) [
  | inl first ↦ rw first refl
  | inr after ↦ rw after (omega (arith, sum-insert x ys))
]

sum-sort : (xs : List ℕ) → sum (sort xs) ≡ sum xs
unfolding sort
sum-sort [] = refl
sum-sort (x ∷ xs) = omega (arith, sum-insert x (sort xs), sum-sort xs)

length-insert : (x : ℕ) (ys : List ℕ) → length (insert x ys) ≡ suc (length ys)
unfolding insert
length-insert x [] = refl
length-insert x (y ∷ ys) = elim (Bool-cases (leb x y)) [
  | inl first ↦ rw first refl
  | inr after ↦ rw after (omega (arith, length-insert x ys))
]

length-sort : (xs : List ℕ) → length (sort xs) ≡ length xs
unfolding sort
length-sort [] = refl
length-sort (x ∷ xs) = omega (arith, length-insert x (sort xs), length-sort xs)

sum-low : (lo : ℕ) (xs : List ℕ) → All (λ x. lo ≤ x) xs → lo * length xs ≤ sum xs
sum-low lo [] k = omega arith
sum-low lo (x ∷ xs) (h, k) = grind (arith, h, sum-low lo xs k)

sum-high : (hi : ℕ) (xs : List ℕ) → All (λ x. x ≤ hi) xs → sum xs ≤ hi * length xs
sum-high hi [] k = omega arith
sum-high hi (x ∷ xs) (h, k) = grind (arith, h, sum-high hi xs k)

back-high : (xs : List ℕ) → Sorted xs → All (λ x. x ≤ back xs) xs
unfolding back
back-high [] k = tt
back-high (x ∷ []) k = (omega arith, tt)
back-high (x ∷ y ∷ ys) ((h, low), k) =
    let (b, bs) = back-high (y ∷ ys) k in (omega (arith, h, b), (b, bs))

front-low : (xs : List ℕ) → Sorted xs → All (λ x. get_or xs 0 0 ≤ x) xs
front-low [] k = tt
front-low (x ∷ xs) (low, k) = (omega arith, low)

without_last-All : (P : ℕ → Type 0) (xs : List ℕ) → All P xs → All P (without_last xs)
unfolding without_last
without_last-All P [] k = tt
without_last-All P (y ∷ []) k = tt
without_last-All P (y ∷ z ∷ ys) (p, k) = (p, without_last-All P (z ∷ ys) k)

length-without_last : (y : ℕ) (ys : List ℕ) → length (without_last (y ∷ ys)) ≡ length ys
unfolding without_last
length-without_last y [] = refl
length-without_last y (z ∷ ys) = ap suc (length-without_last z ys)

sum-without_last : (xs : List ℕ) → sum (without_last xs) ≤ sum xs
unfolding without_last
sum-without_last [] = omega arith
sum-without_last (y ∷ []) = omega arith
sum-without_last (y ∷ z ∷ ys) = omega (arith, sum-without_last (z ∷ ys))

inner-All : (P : ℕ → Type 0) (xs : List ℕ) → All P xs → All P (inner xs)
unfolding inner
inner-All P [] k = tt
inner-All P (x ∷ xs) (p, k) = without_last-All P xs k

length-inner : (xs : List ℕ) → 2 ≤ length xs → length (inner xs) ≡ length xs - 2
unfolding inner
length-inner [] h = absurd (omega (arith, h))
length-inner (x ∷ []) h = absurd (omega (arith, h))
length-inner (x ∷ y ∷ ys) h = omega (arith, length-without_last y ys)

sum-inner : (xs : List ℕ) → sum (inner xs) ≤ sum xs
unfolding inner
sum-inner [] = omega arith
sum-inner (x ∷ xs) = omega (arith, sum-without_last xs)

-- A mean of numbers between two bounds lies between them.
between :
    (lo hi n : ℕ) (xs : List ℕ)
    → All (λ x. lo ≤ x) xs
    → All (λ x. x ≤ hi) xs
    → length xs ≡ n
    → 0 < n
    → sum xs < 2 ^ 64
    → (lo ≤ total xs / n) × (total xs / n ≤ hi)
between lo hi n xs low high e nonzero h =
    let t = total_lem xs h in
    let l : lo * n ≤ sum xs = rw e at (sum-low lo xs low) in
    let u : sum xs ≤ hi * n = rw e at (sum-high hi xs high) in
    rw t (low_div lo n (sum xs) nonzero l, high_div hi n (sum xs) nonzero u)
  where
    low_div : (lo n s : ℕ) → 0 < n → lo * n ≤ s → lo ≤ s / n
    low_div lo n s p h = grind arith

    high_div : (hi n s : ℕ) → 0 < n → s ≤ hi * n → s / n ≤ hi
    high_div hi n s p h = grind arith

-- For the rates of more than two trials that add up to less than 2 ^ 64, both means lie between the least
-- and the greatest rate.
pub summary-means :
    (rates : List ℕ)
    → 2 < length rates
    → sum rates < 2 ^ 64
    → (s : Summary) × (m : ℕ) × (summary rates ≡ some s)
      × (s.inner_mean ≡ some m)
      × (s.least ≤ s.mean)
      × (s.mean ≤ s.greatest)
      × (s.least ≤ m)
      × (m ≤ s.greatest)
unfolding summary
summary-means rates many h =
    let some_trials : (length rates == 0) ≡ false = ground (arith, many) in
    let more : ltb 2 (length rates) ≡ true = ground (arith, many) in
    let rs = sort rates in
    let k = sort-Sorted rates in
    let low = front-low rs k in
    let high = back-high rs k in
    let (a, b) =
      between (get_or rs 0 0) (back rs) (length rates) rs low high (length-sort rates)
        (omega (arith, many)) (omega (arith, h, sum-sort rates)) in
    let (c, d) =
      between (get_or rs 0 0) (back rs) (length rates - 2) (inner rs) (inner-All _ rs low)
        (inner-All _ rs high)
        (length-inner rs (omega (arith, length-sort rates, many))
          ∙ ap (λ (n : ℕ). n - 2) (length-sort rates))
        (omega (arith, many)) (omega (arith, h, sum-inner rs, sum-sort rates)) in
    let same : total rs ≡ total rates =
      total_lem rs (omega (arith, h, sum-sort rates)) ∙ sum-sort rates ∙ sym (total_lem rates h) in
    (_, _, rw (some_trials, more) refl, refl, rw same at a, rw same at b, c, d)
