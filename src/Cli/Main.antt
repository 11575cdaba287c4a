-- ===== src/Cli/Main.antt =====
-- `main` of ethminer/main.cpp: the arguments are read one after another.
pub mod Total
use prog_po_w_miner.Common.{
  ℕ, zero, suc, ◌+◌, List, [], ◌∷◌, ◌&&◌, Option, none, some, length, get_or, ltb, if◌then◌else◌,
}
use prog_po_w_miner.Common.Integers.{ℤ, pos}
use prog_po_w_miner.Common.Result.{Result, ok, err}
use prog_po_w_miner.Common.Numerals.{atoi}
use prog_po_w_miner.Pool.Addresses.{Parts}
use prog_po_w_miner.Cli.{Build, MinerCli, CliError, new_cli, is_one_of}
use prog_po_w_miner.Cli.Options.{interpret_option}
use Prim.Native.String.{String}

-- How the reading ends: with settings and the verbosity of the log, with a text that was asked for, or with
-- an argument that is refused.
pub data Ending : Type 0 where
  parsed : MinerCli → ℤ → Ending
  helped versioned invalid_argument : Ending
  failed : CliError → Ending

module _ (argv : List String) (build : Build) (parse : String → Option Parts)
    (decode trim : String → String) where
  -- The loop over the arguments; nothing if the fuel is used up
  unfoldable pub arguments_loop : (fuel i : ℕ) → MinerCli → ℤ → Option Ending
  arguments_loop zero i c v = none
  arguments_loop (suc fuel) i c v =
      if ltb i (length argv)
      then elim (interpret_option argv build parse decode trim i c) [
        | err e ↦ some (failed e)
        | ok (some r) ↦ arguments_loop fuel (r.0 + 1) r.1 v
        | ok none ↦
            let arg = get_or argv i "" in
            let rest = arguments_loop fuel (i + 2) c (atoi (get_or argv (i + 1) "")) in
            if is_one_of arg ("-v" ∷ "--verbosity" ∷ []) && ltb (i + 1) (length argv)
            then rest
            else if is_one_of arg ("-h" ∷ "--help" ∷ [])
            then some helped
            else if is_one_of arg ("-V" ∷ "--version" ∷ [])
            then some versioned
            else some invalid_argument
      ]
      else some (parsed c v)

  -- The first argument is the name of the program.
  unfoldable pub arguments : Option Ending
  arguments = arguments_loop (suc (length argv)) 1 (new_cli build) (pos 5)
