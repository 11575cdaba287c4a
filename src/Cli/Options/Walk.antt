-- ===== src/Cli/Options/Walk.antt =====
-- The branches of `interpretOption` of ethminer/MinerAux.h one after another: what holds of each holds of
-- the first that is taken.
use prog_po_w_miner.Common.{
  ℕ, ◌+◌, ◌≡◌, List, Bool, true, false, none, if◌then◌else◌, ◌&&◌, Option, length, ltb, arith,
}
use prog_po_w_miner.Common.Integers.{ℤ}
use prog_po_w_miner.Common.Result.{Result}
use prog_po_w_miner.Cli.{MinerCli, CliError, Outcome, with_next, with_number}
use prog_po_w_miner.Cli.Options.{◌or_else◌, on, with_text}
use prog_po_w_miner.Cli.Options.Safety.{
  IsValid, IsKept, IsFine, Every, or_else-Every, on-Every, and_right, with_next-IsFine,
  with_number-IsFine, with_text-IsFine,
}
use Prim.Native.String.{String}

and_left : (a b : Bool) → (a && b) ≡ true → a ≡ true
and_left a b h = ground (arith, h)

-- The branch that is taken, if there is one, is fine.
pub record AllFine (argv : List String) (arg : String) (i : ℕ) (c : MinerCli) (o : Option Outcome)
    : Type 0 where
  pub every : Every argv (IsFine argv arg i c) o

module _ {argv : List String} {arg : String} {i : ℕ} {c : MinerCli} where
  infixr 20 ◌then◌
  pub ◌then◌ :
      {a b : Option Outcome}
      → AllFine argv arg i c a
      → AllFine argv arg i c b
      → AllFine argv arg i c (a or_else b)
  ◌then◌ {a} {b} p q = record {
    every = or_else-Every argv (IsFine argv arg i c) a b p.every q.every;
  }

  -- A branch that reads nothing more
  pub plain :
      (named : Bool) (r : Outcome) → IsFine argv arg i c r → AllFine argv arg i c (on named r)
  plain named r k = record { every = on-Every argv (IsFine argv arg i c) named r (λ _. k) }

  -- A branch that reads the next argument, if there is one
  pub next_number :
      (named : Bool) (f : ℤ → MinerCli)
      → ((n : ℤ) → IsValid c → IsValid (f n))
      → AllFine argv arg i c (on (named && ltb (i + 1) (length argv)) (with_number argv i f))
  next_number named f k = record {
    every =
        on-Every argv (IsFine argv arg i c) _ _
          (λ t. with_number-IsFine argv arg i c f (and_right argv named _ t) k);
  }

  pub next_text :
      (named : Bool) (f : String → MinerCli)
      → ((s : String) → IsValid c → IsValid (f s))
      → AllFine argv arg i c (on (named && ltb (i + 1) (length argv)) (with_text argv i f))
  next_text named f k = record {
    every =
        on-Every argv (IsFine argv arg i c) _ _
          (λ t. with_text-IsFine argv arg i c f (and_right argv named _ t) k);
  }

  pub next_kept :
      (named : Bool) (f : String → Result CliError MinerCli)
      → ((s : String) → IsKept arg c (f s))
      → AllFine argv arg i c (on (named && ltb (i + 1) (length argv)) (with_next argv i f))
  next_kept named f k = record {
    every =
        on-Every argv (IsFine argv arg i c) _ _
          (λ t. with_next-IsFine argv arg i c f (and_right argv named _ t) k);
  }

  -- A branch that reads more by itself
  pub loose_branch :
      (named : Bool) (r : Outcome)
      → (named ≡ true → ltb (i + 1) (length argv) ≡ true → IsFine argv arg i c r)
      → AllFine argv arg i c (on (named && ltb (i + 1) (length argv)) r)
  loose_branch named r k = record {
    every =
        on-Every argv (IsFine argv arg i c) _ _
          (λ t. k (and_left named _ t) (and_right argv named _ t));
  }

  -- A group of branches that the build may leave out
  pub skipped :
      (kept : Bool) (o : Option Outcome)
      → AllFine argv arg i c o
      → AllFine argv arg i c (if kept then o else none)
  skipped true o k = k
  skipped false o k = record { every = tt }
