-- ===== src/Cli/Options/Settings.antt =====
-- `MinerCLI::interpretOption` of ethminer/MinerAux.h as a whole.
use prog_po_w_miner.Common.{
  ℕ, ◌+◌, ◌<◌, ◌≤◌, ◌≡◌, inl, inr, refl, List, false, ◌&&◌, Option, none, some, length, get_or, ltb,
  if◌then◌else◌, Bool-cases, arith,
}
use prog_po_w_miner.Common.Result.{Result, ok, err, ◌>>=◌}
use prog_po_w_miner.Pool.Addresses.{Parts}
use prog_po_w_miner.Cli.{MinerCli, Build, CliError, Outcome}
use prog_po_w_miner.Cli.Options.{branch, compatible, interpret_option}
use prog_po_w_miner.Cli.Options.Safety.{IsValid, Thrown, IsFine, Every}
use prog_po_w_miner.Cli.Options.Walk.{AllFine, ◌then◌, plain, next_text, skipped}
use prog_po_w_miner.Cli.Options.Devices.{
  opencl_options-IsFine, cuda_options-IsFine, mining_options-IsFine,
}
use prog_po_w_miner.Cli.Options.Pools.{pool_options-IsFine}
use Prim.Native.String.{String}

module _ (argv : List String) (build : Build) (parse : String → Option Parts)
    (decode trim : String → String) (i : ℕ) (c : MinerCli) (there : i < length argv) where
  branch-AllFine :
      (arg : String)
      → AllFine argv arg i c
          (branch argv build parse decode trim arg (ltb (i + 1) (length argv)) i c)
  unfolding branch
  branch-AllFine arg =
      pool_options-IsFine argv arg i c there build parse decode trim
      then next_text _ _ (λ s v. v)
      then skipped build.ethash_cl _ (opencl_options-IsFine argv arg i c there)
      then plain _ _ (omega arith, there, λ k. k)
      then skipped build.ethash_cuda _ (cuda_options-IsFine argv arg i c there)
      then mining_options-IsFine argv arg i c there

  -- What an option may come to: nothing, if it is none of them; settings that are valid if they were, with
  -- an index that is not before the option and not behind the arguments; or an exception.
  abbrev pub IsInterpreted : String → Result CliError (Option (ℕ × MinerCli)) → Type 0
  IsInterpreted arg (ok none) = Unit
  IsInterpreted arg (ok (some (j, d))) =
      (i ≤ j)
      × (j < length argv)
      × (IsValid c → IsValid d)
      × ((d.legacy_parameters && d.new_parameters) ≡ false)
  IsInterpreted arg (err e) = Thrown arg e

  after_branch :
      (arg : String) (o : Option Outcome)
      → Every argv (IsFine argv arg i c) o
      → IsInterpreted arg (elim o [
        | none ↦ ok none
        | some r ↦ (r >>= compatible argv build parse decode trim >>= λ s. ok (some s))
      ])
  unfolding compatible
  after_branch arg none k = tt
  after_branch arg (some (err e)) k = k
  after_branch arg (some (ok (j, d))) (low, high, valid) =
      elim (Bool-cases (d.legacy_parameters && d.new_parameters)) [
        | inl both ↦ rw both (inl refl)
        | inr one ↦ rw one (low, high, valid, one)
      ]

  -- An option of the command line leaves off at an argument that is there and not before itself, keeps the
  -- settings in their bounds, never leaves deprecated parameters beside those of `-P`, and throws
  -- nothing but `BadArgument`, unless it is `--cuda-streams` or `-L`.
  pub interpret_option-IsInterpreted :
      IsInterpreted (get_or argv i "") (interpret_option argv build parse decode trim i c)
  unfolding interpret_option
  interpret_option-IsInterpreted =
      after_branch (get_or argv i "") _ (branch-AllFine (get_or argv i "")).every
