-- ===== src/Cli/Main/Total.antt =====
-- The reading of the arguments in ethminer/main.cpp ends, with settings in their bounds.
use prog_po_w_miner.Common.{
  ℕ, zero, suc, ◌+◌, ◌<◌, ◌≤◌, ◌≡◌, refl, List, [], ◌∷◌, false, ◌&&◌, Option, none, some, length,
  get_or, ltb, if◌then◌else◌, Bool-cases, arith,
}
use prog_po_w_miner.Common.{inl, inr}
use prog_po_w_miner.Common.Integers.{ℤ, pos}
use prog_po_w_miner.Common.Result.{Result, ok, err}
use prog_po_w_miner.Common.Numerals.{atoi}
use prog_po_w_miner.Pool.Addresses.{Parts}
use prog_po_w_miner.Cli.{Build, MinerCli, CliError, new_cli, is_one_of}
use prog_po_w_miner.Cli.Options.{interpret_option}
use prog_po_w_miner.Cli.Options.Safety.{IsValid}
use prog_po_w_miner.Cli.Options.Settings.{IsInterpreted, interpret_option-IsInterpreted}
use prog_po_w_miner.Cli.Main.{
  Ending, parsed, helped, versioned, invalid_argument, failed, arguments_loop, arguments,
}
use Prim.Native.String.{String}

-- Settings that the program may go on with: within their bounds, and with one kind of parameters for pools.
abbrev pub IsUsable : MinerCli → Type 0
IsUsable c = IsValid c × ((c.legacy_parameters && c.new_parameters) ≡ false)

abbrev pub IsEnd : Option Ending → Type 0
IsEnd none = ⊥
IsEnd (some (parsed c v)) = IsUsable c
IsEnd (some helped) = Unit
IsEnd (some versioned) = Unit
IsEnd (some invalid_argument) = Unit
IsEnd (some (failed e)) = Unit

new_cli-IsUsable : (b : Build) → IsUsable (new_cli b)
unfolding new_cli
new_cli-IsUsable b = (
  record {
    ends_same = refl;
    ep_bound = omega arith;
    cl_bound = omega arith;
    cuda_bound = omega arith;
    threads_known = refl;
    hashes_some = omega arith;
    hashes_bound = omega arith;
    load_bound = omega arith;
  },
  refl,
)

module _ (argv : List String) (build : Build) (parse : String → Option Parts)
    (decode trim : String → String) where
  step-IsEnd :
      (fuel i : ℕ) (c : MinerCli) (v : ℤ) (there : i < length argv)
      → IsUsable c
      → ((j : ℕ) (d : MinerCli) (w : ℤ)
          → i < j
          → j ≤ length argv
          → IsUsable d
          → IsEnd (arguments_loop argv build parse decode trim fuel j d w))
      → (r : Result CliError (Option (ℕ × MinerCli)))
      → IsInterpreted argv build parse decode trim i c there (get_or argv i "") r
      → IsEnd (elim r [
        | err e ↦ some (failed e)
        | ok (some r) ↦ arguments_loop argv build parse decode trim fuel (r.0 + 1) r.1 v
        | ok none ↦
            let arg = get_or argv i "" in
            let rest =
              arguments_loop argv build parse decode trim fuel
                (i + 2)
                c
                (atoi (get_or argv (i + 1) "")) in
            if is_one_of arg ("-v" ∷ "--verbosity" ∷ []) && ltb (i + 1) (length argv)
            then rest
            else if is_one_of arg ("-h" ∷ "--help" ∷ [])
            then some helped
            else if is_one_of arg ("-V" ∷ "--version" ∷ [])
            then some versioned
            else some invalid_argument
      ])
  step-IsEnd fuel i c v there u rest (err e) k = tt
  step-IsEnd fuel i c v there u rest (ok (some (j, d))) (low, high, valid, one) =
      rest (j + 1) d v (omega (arith, low)) (omega (arith, high)) (valid u.0, one)
  step-IsEnd fuel i c v there u rest (ok none) k =
      let arg = get_or argv i "" in
      elim (Bool-cases (is_one_of arg ("-v" ∷ "--verbosity" ∷ []) && ltb (i + 1) (length argv))) [
        | inl verbose ↦ rw verbose (
            rest (i + 2) c (atoi (get_or argv (i + 1) "")) (omega arith) (ground (arith, verbose))
              u)
        | inr a ↦ rw a (elim (Bool-cases (is_one_of arg ("-h" ∷ "--help" ∷ []))) [
          | inl h ↦ rw h tt
          | inr b ↦ rw b (elim (Bool-cases (is_one_of arg ("-V" ∷ "--version" ∷ []))) [
            | inl h ↦ rw h tt
            | inr h ↦ rw h tt
          ])
        ])
      ]

  loop-IsEnd :
      (fuel i : ℕ) (c : MinerCli) (v : ℤ)
      → i ≤ length argv + 1
      → length argv + 2 ≤ fuel + i
      → IsUsable c
      → IsEnd (arguments_loop argv build parse decode trim fuel i c v)
  unfolding arguments_loop
  loop-IsEnd zero i c v b h u = absurd (omega (arith, b, h))
  loop-IsEnd (suc fuel) i c v b h u = elim (Bool-cases (ltb i (length argv))) [
    | inr stop ↦ rw stop u
    | inl more ↦
        let there : i < length argv = ground (arith, more) in
        rw more (
          step-IsEnd fuel i c v there u
            (λ j d w later few.
              loop-IsEnd fuel j d w (omega (arith, few)) (omega (arith, h, later)))
            (interpret_option argv build parse decode trim i c)
            (interpret_option-IsInterpreted argv build parse decode trim i c there))
  ]

  -- For every command line the reading ends within one round more than there are arguments, and if it goes on
  -- to run the miner, the settings are within their bounds and deprecated parameters do not stand
  -- beside those of `-P`.
  pub arguments-IsEnd : IsEnd (arguments argv build parse decode trim)
  unfolding arguments
  arguments-IsEnd =
      loop-IsEnd (suc (length argv)) 1 (new_cli build) (pos 5) (omega arith) (omega arith)
        (new_cli-IsUsable build)
