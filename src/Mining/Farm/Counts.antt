-- ===== src/Mining/Farm/Counts.antt =====
-- What `miningProgress` of libethcore/Farm.h reports.
use prog_po_w_miner.Common.{
  ℕ, suc, ◌+◌, ◌≤◌, ◌<◌, ◌%◌, ◌^◌, ◌≡◌, refl, ap, ◌∙◌, List, [], ◌∷◌, map, length, length-map, All,
  arith,
}
use prog_po_w_miner.Mining.Work.{WorkingProgress, Miner}
use prog_po_w_miner.Mining.Farm.{
  Farm, sum_64, add_counts, add_progress, add_progresses, mining_progress,
}
use prog_po_w_miner.Mining.Farm.Steps.{Steps, Adds, IsValid}
use prog_po_w_miner.Mining.Farm.Validity.{Steps-IsValid}

length-add_counts : (ts cs : List ℕ) → length (add_counts ts cs) ≡ length ts
unfolding add_counts
length-add_counts [] cs = refl
length-add_counts (t ∷ ts) [] = refl
length-add_counts (t ∷ ts) (c ∷ cs) = ap suc (length-add_counts ts cs)

sum_64-lt : (ts : List ℕ) → sum_64 ts < 2 ^ 64
unfolding sum_64
sum_64-lt [] = omega arith
sum_64-lt (t ∷ ts) = omega arith

sum_64-add_counts :
    (ts cs : List ℕ)
    → length cs ≤ length ts
    → sum_64 (add_counts ts cs) ≡ (sum_64 ts + sum_64 cs) % 2 ^ 64
unfolding sum_64 add_counts
sum_64-add_counts [] [] h = omega arith
sum_64-add_counts [] (c ∷ cs) h = absurd (omega arith)
sum_64-add_counts (t ∷ ts) [] h = omega arith
sum_64-add_counts (t ∷ ts) (c ∷ cs) h = omega (arith, sum_64-add_counts ts cs (omega arith))

add_progresses-sum :
    (p : WorkingProgress) (ps : List WorkingProgress)
    → sum_64 p.miners_hashes ≡ p.hashes
    → All (Adds (length p.miners_hashes)) ps
    → sum_64 ((add_progresses p ps).miners_hashes) ≡ (add_progresses p ps).hashes
unfolding add_progresses add_progress
add_progresses-sum p [] e v = e
add_progresses-sum p (q ∷ qs) e ((few, sum), v) =
    add_progresses-sum (add_progress p q) qs
      (sum_64-add_counts p.miners_hashes q.miners_hashes few ∙ rw (e, sum) refl)
      (rw (length-add_counts p.miners_hashes q.miners_hashes) v)

zeros : List Miner → List ℕ
zeros ms = map (λ (m : Miner). 0) ms

sum_64-zeros : (ms : List Miner) → sum_64 (zeros ms) ≡ 0
unfolding sum_64 zeros
sum_64-zeros [] = refl
sum_64-zeros (m ∷ ms) = rw (sum_64-zeros ms) (omega arith)

length-zeros : (ms : List Miner) → length (zeros ms) ≡ length ms
unfolding zeros
length-zeros ms = length-map {B = ℕ} ms (λ m. 0)

-- However the farm came to its state, the hashes of the miners in its report add up, in 64 bits, to
-- the hashes of the report.
pub Steps-report_adds :
    (f g : Farm)
    → IsValid f
    → Steps f g
    → sum_64 ((mining_progress g).0.miners_hashes) ≡ (mining_progress g).0.hashes
unfolding mining_progress zeros
Steps-report_adds f g v ss =
    let w = Steps-IsValid ss v in
    add_progresses-sum _ g.last_progresses (sum_64-zeros g.miners)
      (rw (length-zeros g.miners) w.adds)
