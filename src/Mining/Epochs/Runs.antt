-- ===== src/Mining/Epochs/Runs.antt =====
-- `EthashAux::toEpoch` at concrete inputs: with a hash function that adds 5, and with one that gives 0.
use prog_po_w_miner.Common.{ℕ, zero, suc, ◌+◌, ◌<◌, ◌≡◌, ◌≢◌, refl, arith}
use prog_po_w_miner.Common.Result.{ok}
use prog_po_w_miner.Mining.Epochs.{Epochs, new_epochs, max_epoch, to_epoch}
use prog_po_w_miner.Mining.Epochs.Search.{seed_after, First, to_epoch-First}

abbrev add_five : ℕ → ℕ
add_five n = n + 5

abbrev no_hash : ℕ → ℕ
no_hash n = 0

new_epochs-First : (sha3 : ℕ → ℕ) → First sha3 max_epoch 0 0 0
unfolding seed_after
new_epochs-First sha3 = record {
  below = omega arith;
  found = refl;
  none_before = λ j l. absurd (omega (arith, l));
}

third_seed : seed_after add_five 2 0 ≡ 10
unfolding seed_after
third_seed = refl

to_epoch-First_example :
    (e : ℕ) × (t : Epochs) × (to_epoch add_five 10 new_epochs ≡ ok (e, t))
    × First add_five max_epoch 0 10 e
    × First add_five max_epoch 0 t.cached_seed t.cached_epoch
to_epoch-First_example =
    to_epoch-First add_five 10 2 new_epochs (new_epochs-First add_five) (omega arith) third_seed

stays : (j : ℕ) → seed_after no_hash j 0 ≡ 0
unfolding seed_after
stays zero = refl
stays (suc j) = stays j

never_seven : (j : ℕ) → j < max_epoch → seed_after no_hash j 0 ≢ 7
never_seven j l q = absurd (omega (arith, stays j, q))
