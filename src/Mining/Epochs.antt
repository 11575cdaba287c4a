-- ===== src/Mining/Epochs.antt =====
-- `EthashAux::toEpoch` of libethcore/EthashAux.cpp: the epoch of a seed hash, with the cache of the last one.
-- The hash function `sha3` is a parameter.
pub mod Search
mod Runs
use prog_po_w_miner.Common.{ℕ, zero, suc, ◌+◌, Bool, not, ◌==◌, if◌then◌else◌}
use prog_po_w_miner.Common.Result.{Result, ok, err}

-- `m_cached_epoch` and `m_cached_seed`
pub record Epochs : Type 0 where
  pub cached_epoch : ℕ
  pub cached_seed : ℕ

abbrev pub new_epochs : Epochs
new_epochs = record { cached_epoch = 0; cached_seed = 0 }

pub data EpochError : Type 0 where
  invalid_argument : EpochError

abbrev pub max_epoch : ℕ
max_epoch = 2048

module _ (sha3 : ℕ → ℕ) where
  -- The loop, with the number of rounds that are left below the bound.
  unfoldable pub search : (left h seed epoch : ℕ) → ℕ
  search zero h seed epoch = epoch
  search (suc left) h seed epoch =
      let rest = search left (sha3 h) seed (epoch + 1) in if h == seed then epoch else rest

  -- `toEpoch(_seedHash)`
  unfoldable pub to_epoch : ℕ → Epochs → Result EpochError (ℕ × Epochs)
  to_epoch seed s =
      if not (seed == s.cached_seed)
      then (let epoch = search max_epoch 0 seed 0 in
          if epoch == max_epoch
          then err invalid_argument
          else ok (epoch, record { cached_epoch = epoch; cached_seed = seed }))
      else ok (s.cached_epoch, s)
