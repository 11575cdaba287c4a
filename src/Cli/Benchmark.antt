-- ===== src/Cli/Benchmark.antt =====
-- The arithmetic of `MinerCLI::doBenchmark` of ethminer/MinerAux.h over the rates of the trials.
pub mod Means
use prog_po_w_miner.Common.{
  ℕ, zero, suc, ◌+◌, ◌-◌, ◌/◌, ◌%◌, ◌^◌, List, [], ◌∷◌, Option, none, some, length, get_or, leb,
  ltb, ◌==◌, if◌then◌else◌,
}

-- `std::sort` of numbers
unfoldable pub insert : ℕ → List ℕ → List ℕ
insert x [] = x ∷ []
insert x (y ∷ ys) = let rest = insert x ys in if leb x y then x ∷ y ∷ ys else y ∷ rest

unfoldable pub sort : List ℕ → List ℕ
unfolding insert
sort [] = []
sort (x ∷ xs) = insert x (sort xs)

-- A sum of type `uint64_t`
unfoldable pub total : List ℕ → ℕ
total [] = 0
total (x ∷ xs) = (x + total xs) % 2 ^ 64

-- What is between the first and the last of the results
unfoldable pub without_last : List ℕ → List ℕ
without_last [] = []
without_last (y ∷ []) = []
without_last (y ∷ z ∷ ys) = y ∷ without_last (z ∷ ys)

unfoldable pub inner : List ℕ → List ℕ
unfolding without_last
inner [] = []
inner (x ∷ xs) = without_last xs

unfoldable pub back : List ℕ → ℕ
back [] = 0
back (x ∷ []) = x
back (x ∷ y ∷ ys) = back (y ∷ ys)

pub record Summary : Type 0 where
  pub least : ℕ
  pub mean : ℕ
  pub greatest : ℕ
  pub inner_mean : Option ℕ

-- The rates of the trials, of which there is at least one, come to their least, mean and greatest, and to the mean of all but
-- the least and the greatest if there are more than two.
unfoldable pub summary : List ℕ → Option Summary
unfolding inner
summary rates =
    let trials = length rates in
    let results = sort rates in
    if trials == 0
    then none
    else some (record {
      least = get_or results 0 0;
      mean = total rates / trials;
      greatest = back results;
      inner_mean = if ltb 2 trials then some (total (inner results) / (trials - 2)) else none;
    })
