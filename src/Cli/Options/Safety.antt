-- ===== src/Cli/Options/Safety.antt =====
-- What every option of ethminer/MinerAux.h leaves behind: where it stops to read, what it may throw and
-- which settings stay in their bounds.
use prog_po_w_miner.Common.{
  ℕ, zero, suc, ◌+◌, ◌<◌, ◌≤◌, ◌≡◌, ◌⊎◌, inl, inr, refl, ap, List, [], ◌∷◌, ◌++◌, Bool, true, false,
  ◌&&◌, ◌||◌, Option, none, some, length, length-append, get_elem?, get_or, ltb, ◌==◌,
  if◌then◌else◌, Bool-cases, arith,
}
use prog_po_w_miner.Common.Integers.{ℤ}
use prog_po_w_miner.Common.Result.{Result, ok, err, ◌>>=◌}
use prog_po_w_miner.Common.Numerals.{stol}
use prog_po_w_miner.Cli.{
  MinerCli, CliError, bad_argument, null_argument, Outcome, max_endpoints, max_miners, is_one_of,
  argument, with_next, with_number,
}
use prog_po_w_miner.Cli.Options.{◌or_else◌, on, unsigned, read_devices, with_text}
use mathlib.Core.Path.{fun_ext}
use Prim.Native.String.{String}

-- The bounds of the settings that a later part relies on.
pub record Bounds (ends ep_ix cls cudas threads hashes load : ℕ) : Type 0 where
  pub ends_same : ends ≡ max_endpoints
  pub ep_bound : ep_ix ≤ max_endpoints
  pub cl_bound : cls ≤ max_miners
  pub cuda_bound : cudas ≤ max_miners
  pub threads_known : (threads == 1 || threads == 2 || threads == 4 || threads == 8) ≡ true
  pub hashes_some : 0 < hashes
  pub hashes_bound : hashes ≤ 8
  pub load_bound : load ≤ 2

-- There are six endpoints and at most so many of them are given, at most 32 devices are chosen of a kind,
-- and what a device does at once is a number that its kernel knows.
abbrev pub IsValid : MinerCli → Type 0
IsValid c =
    Bounds (length c.endpoints) c.ep_ix (length c.opencl_devices) (length c.cuda_devices)
      c.opencl_threads_per_hash c.parallel_hash c.dag_load_mode

-- The options that may throw something other than `BadArgument`.
unfoldable pub is_loose : String → Bool
is_loose arg = is_one_of arg ("--cuda-streams" ∷ "-L" ∷ "--dag-load-mode" ∷ [])

abbrev pub Thrown : String → CliError → Type 0
Thrown arg e = (e ≡ bad_argument) ⊎ (is_loose arg ≡ true)

-- A change of the settings by an option
abbrev pub IsKept : String → MinerCli → Result CliError MinerCli → Type 0
IsKept arg c (ok d) = IsValid c → IsValid d
IsKept arg c (err e) = Thrown arg e

module _ (argv : List String) where
  -- An option at an index leaves off at an argument that is there, and keeps the settings valid.
  abbrev pub IsFine : String → ℕ → MinerCli → Outcome → Type 0
  IsFine arg i c (ok (j, d)) = (i ≤ j) × (j < length argv) × (IsValid c → IsValid d)
  IsFine arg i c (err e) = Thrown arg e

  abbrev pub Every : (Outcome → Type 0) → Option Outcome → Type 0
  Every P none = Unit
  Every P (some r) = P r

  pub or_else-Every :
      (P : Outcome → Type 0) (a b : Option Outcome) → Every P a → Every P b → Every P (a or_else b)
  unfolding ◌or_else◌
  or_else-Every P none b p q = q
  or_else-Every P (some r) b p q = p

  pub on-Every :
      (P : Outcome → Type 0) (test : Bool) (r : Outcome) → (test ≡ true → P r) → Every P (on test r)
  unfolding on
  on-Every P true r p = p refl
  on-Every P false r p = tt

  pub and_right : (a b : Bool) → (a && b) ≡ true → b ≡ true
  and_right true b h = h
  and_right false b h = absurd (ground (arith, h))

  get_elem?-there :
      {A : Type 0} (xs : List A) (i : ℕ) → i < length xs → (x : A) × (get_elem? xs i ≡ some x)
  get_elem?-there [] i h = absurd (omega (arith, h))
  get_elem?-there (x ∷ xs) zero h = (x, refl)
  get_elem?-there (x ∷ xs) (suc i) h = get_elem?-there xs i (omega (arith, h))

  pub argument-there : (i : ℕ) → i < length argv → (s : String) × (argument argv i ≡ ok s)
  unfolding argument
  argument-there i h = let (s, e) = get_elem?-there argv i h in (s, rw (argument, e) refl)

  get_elem?-missing : {A : Type 0} (xs : List A) (i : ℕ) → length xs ≤ i → get_elem? xs i ≡ none
  get_elem?-missing [] i h = refl
  get_elem?-missing (x ∷ xs) zero h = absurd (omega (arith, h))
  get_elem?-missing (x ∷ xs) (suc i) h = get_elem?-missing xs i (omega (arith, h))

  pub argument-missing : (i : ℕ) → length argv ≤ i → argument argv i ≡ err null_argument
  unfolding argument
  argument-missing i h = rw (argument, get_elem?-missing argv i h) refl

  then_next :
      (arg : String) (i : ℕ) (c : MinerCli) (r : Result CliError MinerCli)
      → i + 1 < length argv
      → IsKept arg c r
      → IsFine arg i c (r >>= λ c. ok (i + 1, c))
  then_next arg i c (ok d) h k = (omega arith, h, k)
  then_next arg i c (err e) h k = k

  pub with_next-IsFine :
      (arg : String) (i : ℕ) (c : MinerCli) (f : String → Result CliError MinerCli)
      → ltb (i + 1) (length argv) ≡ true
      → ((s : String) → IsKept arg c (f s))
      → IsFine arg i c (with_next argv i f)
  unfolding with_next
  with_next-IsFine arg i c f more k =
      let there : i + 1 < length argv = ground (arith, more) in
      let (s, e) = argument-there (i + 1) there in rw e (then_next arg i c (f s) there (k s))

  number-IsKept :
      (arg : String) (c : MinerCli) (f : ℤ → MinerCli) (n : Option ℤ)
      → ((n : ℤ) → IsValid c → IsValid (f n))
      → IsKept arg c (elim n [ none ↦ err bad_argument | some n ↦ ok (f n) ])
  number-IsKept arg c f none k = inl refl
  number-IsKept arg c f (some n) k = k n

  pub with_number-IsFine :
      (arg : String) (i : ℕ) (c : MinerCli) (f : ℤ → MinerCli)
      → ltb (i + 1) (length argv) ≡ true
      → ((n : ℤ) → IsValid c → IsValid (f n))
      → IsFine arg i c (with_number argv i f)
  unfolding with_number
  with_number-IsFine arg i c f more k =
      with_next-IsFine arg i c _ more (λ s. number-IsKept arg c f (stol s) k)

  pub with_text-IsFine :
      (arg : String) (i : ℕ) (c : MinerCli) (f : String → MinerCli)
      → ltb (i + 1) (length argv) ≡ true
      → ((s : String) → IsValid c → IsValid (f s))
      → IsFine arg i c (with_text argv i f)
  unfolding with_text
  with_text-IsFine arg i c f more k = with_next-IsFine arg i c _ more k

  abbrev Within : ℕ → List ℕ → ℕ × List ℕ → Type 0
  Within i ds r =
      (i ≤ r.0) × (r.0 < length argv) × (length ds ≤ max_miners → length r.1 ≤ max_miners)

  -- The devices that are read stay within their number, and the arguments within theirs.
  pub read_devices-bounds :
      (fuel i : ℕ) (ds : List ℕ) → i < length argv → Within i ds (read_devices argv fuel i ds)
  unfolding read_devices
  read_devices-bounds zero i ds h = (omega arith, h, λ b. b)
  read_devices-bounds (suc fuel) i ds h =
      elim (Bool-cases (ltb (length ds) max_miners && ltb (i + 1) (length argv))) [
        | inr stop ↦ rw stop (omega arith, h, λ b. b)
        | inl room ↦ rw room (
            next (stol (get_or argv (i + 1) "")) (ground (arith, room)) (ground (arith, room))
              (λ n. read_devices-bounds fuel (i + 1) (ds ++ (n ∷ []))))
      ]
    where
      next :
          (n : Option ℤ)
          → length ds < max_miners
          → i + 1 < length argv
          → ((m : ℕ)
              → i + 1 < length argv
              → Within (i + 1) (ds ++ (m ∷ [])) (read_devices argv fuel (i + 1) (ds ++ (m ∷ []))))
          → Within i ds (elim n [
            | none ↦ (i, ds)
            | some n ↦ read_devices argv fuel (i + 1) (ds ++ (unsigned n ∷ []))
          ])
      next none room there rest = (omega arith, h, λ b. b)
      next (some n) room there rest =
          let (low, high, few) = rest (unsigned n) there in
          (
            omega (arith, low),
            high,
            λ b. few (omega (arith, room, length-append ds (unsigned n ∷ []))),
          )

  -- With as much fuel as there are arguments left, more fuel changes nothing.
  read_devices-fuel :
      (fuel i : ℕ) (ds : List ℕ)
      → length argv ≤ fuel + i + 1
      → read_devices argv (suc fuel) i ds ≡ read_devices argv fuel i ds
  unfolding read_devices
  read_devices-fuel zero i ds h =
      let over : ltb (i + 1) (length argv) ≡ false = ground (arith, h) in
      elim (Bool-cases (ltb (length ds) max_miners)) [
        | inl a ↦ rw (a, over) refl
        | inr a ↦ rw a refl
      ]
  read_devices-fuel (suc fuel) i ds h =
      ap
        (λ (f : ℕ → ℕ × List ℕ).
          if ltb (length ds) max_miners && ltb (i + 1) (length argv)
          then elim (stol (get_or argv (i + 1) "")) [ none ↦ (i, ds) | some n ↦ f (unsigned n) ]
          else (i, ds))
        (fun_ext (λ n. read_devices-fuel fuel (i + 1) (ds ++ (n ∷ [])) (omega (arith, h))))
