-- ===== src/Cli/Options/Devices.antt =====
-- The options of ethminer/MinerAux.h for OpenCL, for CUDA and for mining: each keeps the settings valid.
use prog_po_w_miner.Common.{
  ℕ, ◌+◌, ◌<◌, ◌≤◌, ◌≡◌, inl, inr, refl, List, [], ◌∷◌, Bool, true, false, ◌||◌, Option, none, some,
  length, ltb, ◌==◌, if◌then◌else◌, Bool-cases, arith,
}
use prog_po_w_miner.Common.Integers.{ℤ}
use prog_po_w_miner.Common.Result.{ok, err, ◌>>=◌}
use prog_po_w_miner.Common.Text.{same_text}
use prog_po_w_miner.Common.Numerals.{stol}
use prog_po_w_miner.Cli.{MinerCli, max_miners, bad_argument, bad_number, is_one_of, argument}
use prog_po_w_miner.Cli.Endpoints.{is_dashed}
use prog_po_w_miner.Cli.Options.{
  unsigned, with_block, opencl_options, schedule_of, cuda_options, set_dag_load_mode,
  mining_options,
}
use prog_po_w_miner.Cli.Options.Safety.{
  Bounds, IsValid, is_loose, IsKept, IsFine, argument-there, argument-missing, read_devices-bounds,
  with_next-IsFine,
}
use prog_po_w_miner.Cli.Options.Walk.{AllFine, ◌then◌, loose_branch, plain, next_number, next_kept}
use Prim.Native.String.{String}

threads-IsKept :
    (arg : String) (c : MinerCli) (n : Option ℤ)
    → IsKept arg c (elim n [
      | none ↦ err bad_argument
      | some n ↦
          let t = unsigned n in
          if t == 1 || t == 2 || t == 4 || t == 8
          then ok (record c { opencl_threads_per_hash = t })
          else err bad_argument
    ])
threads-IsKept arg c none = inl refl
threads-IsKept arg c (some n) =
    let t = unsigned n in
    elim (Bool-cases (t == 1 || t == 2 || t == 4 || t == 8)) [
      | inl known ↦ rw known (λ k. record {
        ends_same = k.ends_same;
        ep_bound = k.ep_bound;
        cl_bound = k.cl_bound;
        cuda_bound = k.cuda_bound;
        threads_known = known;
        hashes_some = k.hashes_some;
        hashes_bound = k.hashes_bound;
        load_bound = k.load_bound;
      })
      | inr other ↦ rw other (inl refl)
    ]

hashes-IsKept :
    (arg : String) (c : MinerCli) (n : Option ℤ)
    → IsKept arg c (elim n [
      | none ↦ err bad_argument
      | some n ↦
          let t = unsigned n in
          if t == 0 || ltb 8 t then err bad_argument else ok (record c { parallel_hash = t })
    ])
hashes-IsKept arg c none = inl refl
hashes-IsKept arg c (some n) =
    let t = unsigned n in
    elim (Bool-cases (t == 0 || ltb 8 t)) [
      | inl bad ↦ rw bad (inl refl)
      | inr good ↦ rw good (λ k. record {
        ends_same = k.ends_same;
        ep_bound = k.ep_bound;
        cl_bound = k.cl_bound;
        cuda_bound = k.cuda_bound;
        threads_known = k.threads_known;
        hashes_some = ground (arith, good);
        hashes_bound = ground (arith, good);
        load_bound = k.load_bound;
      })
    ]

module _ (argv : List String) (arg : String) (i : ℕ) (c : MinerCli) (there : i < length argv) where
  -- The numbers of devices in the settings
  with_cls :
      {n : ℕ}
      → n ≤ max_miners
      → IsValid c
      → Bounds
          (length c.endpoints)
          c.ep_ix
          n
          (length c.cuda_devices)
          c.opencl_threads_per_hash
          c.parallel_hash
          c.dag_load_mode
  with_cls b k = record {
    ends_same = k.ends_same;
    ep_bound = k.ep_bound;
    cl_bound = b;
    cuda_bound = k.cuda_bound;
    threads_known = k.threads_known;
    hashes_some = k.hashes_some;
    hashes_bound = k.hashes_bound;
    load_bound = k.load_bound;
  }

  with_cudas :
      {n : ℕ}
      → n ≤ max_miners
      → IsValid c
      → Bounds
          (length c.endpoints)
          c.ep_ix
          (length c.opencl_devices)
          n
          c.opencl_threads_per_hash
          c.parallel_hash
          c.dag_load_mode
  with_cudas b k = record {
    ends_same = k.ends_same;
    ep_bound = k.ep_bound;
    cl_bound = k.cl_bound;
    cuda_bound = b;
    threads_known = k.threads_known;
    hashes_some = k.hashes_some;
    hashes_bound = k.hashes_bound;
    load_bound = k.load_bound;
  }

  with_load :
      {n : ℕ}
      → n ≤ 2
      → IsValid c
      → Bounds
          (length c.endpoints)
          c.ep_ix
          (length c.opencl_devices)
          (length c.cuda_devices)
          c.opencl_threads_per_hash
          c.parallel_hash
          n
  with_load b k = record {
    ends_same = k.ends_same;
    ep_bound = k.ep_bound;
    cl_bound = k.cl_bound;
    cuda_bound = k.cuda_bound;
    threads_known = k.threads_known;
    hashes_some = k.hashes_some;
    hashes_bound = k.hashes_bound;
    load_bound = b;
  }

  pub opencl_options-IsFine :
      AllFine argv arg i c (opencl_options argv arg (ltb (i + 1) (length argv)) i c)
  unfolding opencl_options
  opencl_options-IsFine =
      next_number _ _ (λ n k. k)
      then plain _ _ (
          let (low, high, few) = read_devices-bounds argv (length argv) i c.opencl_devices there in
          (low, high, λ k. with_cls (few k.cl_bound) k))
      then next_kept _ _ (λ s. threads-IsKept arg c (stol s))
      then next_number _ _ (λ n k. k)
      then next_number _ _ (λ n k. k)
      then next_number _ _ (λ n k. k)

  schedule-IsKept :
      (n : Option ℕ)
      → IsKept arg c
          (elim n [ none ↦ err bad_argument | some n ↦ ok (record c { cuda_schedule = n }) ])
  schedule-IsKept none = inl refl
  schedule-IsKept (some n) = λ k. k

  streams-IsKept :
      (n : Option ℤ)
      → is_loose arg ≡ true
      → IsKept arg c
          (elim n [ none ↦ err bad_number | some n ↦ ok (record c { num_streams = unsigned n }) ])
  streams-IsKept none loose = inr loose
  streams-IsKept (some n) loose = λ k. k

  loose_streams : same_text arg "--cuda-streams" ≡ true → is_loose arg ≡ true
  unfolding is_loose is_one_of
  loose_streams h = rw h refl

  loose_load : is_one_of arg ("-L" ∷ "--dag-load-mode" ∷ []) ≡ true → is_loose arg ≡ true
  unfolding is_loose is_one_of
  loose_load h = ground (arith, h)

  pub cuda_options-IsFine :
      AllFine argv arg i c (cuda_options argv arg (ltb (i + 1) (length argv)) i c)
  unfolding cuda_options
  cuda_options-IsFine =
      next_number _ _ (λ n k. k)
      then next_number _ _ (λ n k. k)
      then plain _ _ (
          let (low, high, few) = read_devices-bounds argv (length argv) i c.cuda_devices there in
          (low, high, λ k. with_cudas (few k.cuda_bound) k))
      then next_kept _ _ (λ s. hashes-IsKept arg c (stol s))
      then next_kept _ _ (λ s. schedule-IsKept (schedule_of argv s))
      then loose_branch _ _ (λ named more.
        with_next-IsFine argv arg i c _ more (λ s. streams-IsKept (stol s) (loose_streams named)))
      then plain _ _ (omega arith, there, λ k. k)

  block-IsFine :
      (more : Bool) (d : MinerCli)
      → ltb (i + 1) (length argv) ≡ more
      → (IsValid c → IsValid d)
      → IsFine argv arg i c (with_block argv more i d)
  unfolding with_block
  block-IsFine false d m k = (omega arith, there, k)
  block-IsFine true d m k =
      let (s, e) = argument-there argv (i + 1) (ground (arith, m)) in
      rw e
        (elim (stol s)
          as (λ n. IsFine argv arg i c (elim n [
            | some n ↦ ok (i + 1, record d { benchmark_block = unsigned n })
            | none ↦ if is_dashed s then ok (i, d) else err bad_argument
          ])) [
            | some n ↦ (omega arith, ground (arith, m), k)
            | none ↦ elim (Bool-cases (is_dashed s)) [
              | inl dashed ↦ rw dashed (omega arith, there, k)
              | inr other ↦ rw other (inl refl)
            ]
          ])

  single-IsFine :
      (n : Option ℤ)
      → is_loose arg ≡ true
      → i + 2 < length argv
      → IsFine argv arg i c (elim n [
        | none ↦ err bad_number
        | some n ↦ ok (i + 2, record c { dag_load_mode = 2; dag_create_device = unsigned n })
      ])
  single-IsFine none loose h = inr loose
  single-IsFine (some n) loose h = (omega arith, h, with_load (omega arith))

  load-IsFine :
      is_loose arg ≡ true
      → ltb (i + 1) (length argv) ≡ true
      → IsFine argv arg i c (set_dag_load_mode argv i c)
  unfolding set_dag_load_mode
  load-IsFine loose more =
      let next : i + 1 < length argv = ground (arith, more) in
      let (s, e) = argument-there argv (i + 1) next in
      rw e (elim (Bool-cases (same_text s "parallel")) [
        | inl t ↦ rw t (omega arith, next, with_load (omega arith))
        | inr f ↦ rw f (elim (Bool-cases (same_text s "sequential")) [
          | inl t ↦ rw t (omega arith, next, with_load (omega arith))
          | inr f ↦ rw f (elim (Bool-cases (same_text s "single")) [
            | inr f ↦ rw f (inl refl)
            | inl t ↦ rw t (single loose (ltb (i + 2) (length argv)) refl)
          ])
        ])
      ])
    where
      single :
          is_loose arg ≡ true
          → (b : Bool) → ltb (i + 2) (length argv) ≡ b
          → IsFine argv arg i c (
              argument argv (i + 2) >>= λ s. elim (stol s) [
                | none ↦ err bad_number
                | some n ↦
                    ok (i + 2, record c { dag_load_mode = 2; dag_create_device = unsigned n })
              ])
      single loose true m =
          let (s, e) = argument-there argv (i + 2) (ground (arith, m)) in
          rw e (single-IsFine (stol s) loose (ground (arith, m)))
      single loose false m = rw (argument-missing argv (i + 2) (ground (arith, m))) (inr loose)

  pub mining_options-IsFine :
      AllFine argv arg i c (mining_options argv arg (ltb (i + 1) (length argv)) i c)
  unfolding mining_options
  mining_options-IsFine =
      loose_branch _ _ (λ named more. load-IsFine (loose_load named) more)
      then next_number _ _ (λ n k. k)
      then next_number _ _ (λ n k. k)
      then next_number _ _ (λ n k. k)
      then plain _ _ (omega arith, there, λ k. k)
      then plain _ _ (omega arith, there, λ k. k)
      then plain _ _ (omega arith, there, λ k. k)
      then plain _ _ (block-IsFine _ _ refl (λ k. k))
      then plain _ _ (block-IsFine _ _ refl (λ k. k))
      then next_number _ _ (λ n k. k)
