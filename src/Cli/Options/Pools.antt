-- ===== src/Cli/Options/Pools.antt =====
-- The options of ethminer/MinerAux.h for the addresses of pools: each keeps the settings valid.
use prog_po_w_miner.Common.{
  ℕ, ◌+◌, ◌<◌, ◌≡◌, inl, inr, refl, ◌∙◌, List, Bool, true, false, not, Option, none, some, length,
  length-set, ltb, leb, ◌==◌, if◌then◌else◌, Bool-cases, arith,
}
use prog_po_w_miner.Common.Result.{Result, ok, err, ◌>>=◌}
use prog_po_w_miner.Common.Text.{same_text}
use prog_po_w_miner.Pool.Client.{PoolConnection}
use prog_po_w_miner.Pool.Addresses.{Parts, uri, part, port, known_scheme}
use prog_po_w_miner.Cli.{
  MinerCli, Build, stratum, CliError, bad_argument, max_endpoints, primary, secondary, argument,
}
use prog_po_w_miner.Cli.Endpoints.{
  deprecated, at_endpoint, same_mode, set_userpass, set_level, is_dashed, address, set_farm,
  set_failover, set_stratum, add_endpoint, set_pool, set_ssl, set_hwmon,
}
use prog_po_w_miner.Cli.Options.{login_options, credential_options, pool_options}
use prog_po_w_miner.Cli.Options.Safety.{IsValid, IsKept, IsFine, argument-there}
use prog_po_w_miner.Cli.Options.Walk.{
  AllFine, ◌then◌, loose_branch, plain, next_number, next_text, next_kept,
}
use Prim.Native.String.{String}
use Prim.Native.String

at_endpoint-IsValid :
    (k : ℕ) (f : PoolConnection → PoolConnection) (c : MinerCli)
    → IsValid c
    → IsValid (at_endpoint k f c)
unfolding at_endpoint
at_endpoint-IsValid k f c v = record {
  ends_same = length-set c.endpoints k _ ∙ v.ends_same;
  ep_bound = v.ep_bound;
  cl_bound = v.cl_bound;
  cuda_bound = v.cuda_bound;
  threads_known = v.threads_known;
  hashes_some = v.hashes_some;
  hashes_bound = v.hashes_bound;
  load_bound = v.load_bound;
}

userpass-IsValid : (k : ℕ) (s : String) (c : MinerCli) → IsValid c → IsValid (set_userpass k s c)
unfolding set_userpass
userpass-IsValid k s c v = at_endpoint-IsValid k _ c v

level-IsValid : (c : MinerCli) (l : _) → IsValid c → IsValid (set_level l c)
unfolding set_level
level-IsValid c l v = at_endpoint-IsValid secondary _ _ (at_endpoint-IsValid primary _ c v)

module _ (parse : String → Option Parts) (decode trim : String → String) (arg : String)
    (c : MinerCli) where
  address-IsKept :
      (url : String) (f : Parts → Result CliError MinerCli)
      → ((u : Parts) → IsKept arg c (f u))
      → IsKept arg c (address parse decode trim url f)
  unfolding address
  address-IsKept url f k =
      elim (uri parse url)
        as (λ o. IsKept arg c (elim o [
          | none ↦ err bad_argument
          | some u ↦ if String.len (part decode trim u.host) == 0 then err bad_argument else f u
        ])) [
          | none ↦ inl refl
          | some u ↦ elim (Bool-cases (String.len (part decode trim u.host) == 0)) [
            | inl t ↦ rw t (inl refl)
            | inr t ↦ rw t (k u)
          ]
        ]

  farm-IsKept : (url : String) → IsKept arg c (set_farm parse decode trim url c)
  unfolding set_farm deprecated
  farm-IsKept url = address-IsKept url _ (λ u v. at_endpoint-IsValid primary _ _ v)

  unless :
      (t : Bool) (d : MinerCli)
      → (IsValid c → IsValid d)
      → IsKept arg c (if t then ok d else err bad_argument)
  unless true d k = k
  unless false d k = inl refl

  fork :
      (t : Bool) (a : Result CliError MinerCli) (d : MinerCli)
      → IsKept arg c a
      → (IsValid c → IsValid d)
      → IsKept arg c (if t then a else ok d)
  fork true a d p k = p
  fork false a d p k = k

  refuse :
      (t : Bool) (a : Result CliError MinerCli)
      → IsKept arg c a
      → IsKept arg c (if t then err bad_argument else a)
  refuse true a p = inl refl
  refuse false a p = p

  port-IsKept :
      (p : ℕ) (d : MinerCli) (t : Bool)
      → (IsValid c → IsValid d)
      → IsKept arg c (
          if t
          then (if not (p == 0)
              then ok (at_endpoint secondary (λ e. record e { port = p }) d)
              else err bad_argument)
          else ok d)
  port-IsKept p d false k = k
  port-IsKept p d true k = elim (Bool-cases (not (p == 0))) [
    | inl there ↦ rw there (λ v. at_endpoint-IsValid secondary _ d (k v))
    | inr zero_port ↦ rw zero_port (inl refl)
  ]

  failover-IsKept : (url : String) → IsKept arg c (set_failover parse decode trim url c)
  unfolding set_failover deprecated
  failover-IsKept url = address-IsKept _ _ (λ u.
      let d =
        at_endpoint secondary
          (λ e. record e { host = part decode trim u.host; path = part decode trim u.path })
          (record c { legacy_parameters = true }) in
      port-IsKept (port decode trim u) d (same_mode d.mode stratum)
        (λ v. at_endpoint-IsValid secondary _ (record c { legacy_parameters = true }) v))

  stratum-IsKept : (url : String) → IsKept arg c (set_stratum parse decode trim url c)
  unfolding set_stratum deprecated
  stratum-IsKept url = address-IsKept _ _ (λ u. unless _ _ (λ v. at_endpoint-IsValid primary _ _ v))

  add-IsKept :
      (u : Parts)
      → leb max_endpoints c.ep_ix ≡ false
      → (d : MinerCli) → d ≡ record c { new_parameters = true }
      → IsKept arg c (add_endpoint parse decode trim u d)
  unfolding add_endpoint
  add-IsKept u room d e = rw e (
      fork _ (err bad_argument) _ (inl refl) (λ v. record {
        ends_same = length-set c.endpoints _ _ ∙ v.ends_same;
        ep_bound = ground (arith, room);
        cl_bound = v.cl_bound;
        cuda_bound = v.cuda_bound;
        threads_known = v.threads_known;
        hashes_some = v.hashes_some;
        hashes_bound = v.hashes_bound;
        load_bound = v.load_bound;
      }))

  pool-IsKept : (url : String) → IsKept arg c (set_pool parse decode trim url c)
  unfolding set_pool
  pool-IsKept url =
      let d = record c { new_parameters = true } in
      elim (uri parse (if same_text url "exit" then "stratum://exit:1" else url))
        as (λ o. IsKept arg c (elim o [
          | none ↦ err bad_argument
          | some u ↦
              if not (known_scheme decode trim u c.schemes)
              then err bad_argument
              else if leb max_endpoints c.ep_ix
              then err bad_argument
              else add_endpoint parse decode trim u d
        ])) [
          | none ↦ inl refl
          | some u ↦
              refuse _
                (if leb max_endpoints c.ep_ix
                  then err bad_argument
                  else add_endpoint parse decode trim u d)
                (elim (Bool-cases (leb max_endpoints c.ep_ix)) [
                  | inl full ↦ rw full (inl refl)
                  | inr room ↦ rw room (add-IsKept u room d refl)
                ])
        ]

module _ (argv : List String) (arg : String) (i : ℕ) (c : MinerCli) (there : i < length argv) where
  flagged-IsFine :
      (more : Bool) (d : MinerCli) (f : String → MinerCli)
      → ltb (i + 1) (length argv) ≡ more
      → (IsValid c → IsValid d)
      → ((s : String) → IsValid c → IsValid (f s))
      → IsFine argv arg i c (
          if more
          then (argument argv (i + 1) >>= λ s. if is_dashed s then ok (i, d) else ok (i + 1, f s))
          else ok (i, d))
  flagged-IsFine false d f m k kf = (omega arith, there, k)
  flagged-IsFine true d f m k kf =
      let next : i + 1 < length argv = ground (arith, m) in
      let (s, e) = argument-there argv (i + 1) next in
      rw e (elim (Bool-cases (is_dashed s)) [
        | inl dashed ↦ rw dashed (omega arith, there, k)
        | inr other ↦ rw other (omega arith, next, kf s)
      ])

  login_options-IsFine :
      AllFine argv arg i c (login_options argv arg (ltb (i + 1) (length argv)) i c)
  unfolding login_options deprecated
  login_options-IsFine =
      next_text _ _ (λ s v. userpass-IsValid primary s _ v)
      then loose_branch _ _ (λ named more. (omega arith, there, λ k. k))
      then next_text _ _
          (λ s v. at_endpoint-IsValid secondary _ _ (at_endpoint-IsValid primary _ _ v))

  credential_options-IsFine :
      AllFine argv arg i c (credential_options argv arg (ltb (i + 1) (length argv)) i c)
  unfolding credential_options deprecated
  credential_options-IsFine =
      next_text _ _ (λ s v. v)
      then next_text _ _ (λ s v. userpass-IsValid secondary s _ v)
      then next_text _ _ (λ s v. at_endpoint-IsValid primary _ _ v)
      then next_text _ _ (λ s v. at_endpoint-IsValid primary _ _ v)
      then next_text _ _ (λ s v. at_endpoint-IsValid primary _ _ v)
      then next_text _ _ (λ s v. at_endpoint-IsValid secondary _ _ v)
      then next_text _ _ (λ s v. at_endpoint-IsValid secondary _ _ v)
      then next_text _ _ (λ s v. at_endpoint-IsValid secondary _ _ v)
      then next_text _ _ (λ s v. v)
      then plain _ _ (omega arith, there, λ k. k)
      then next_number _ _ (λ n k. k)

  module _ (build : Build) (parse : String → Option Parts) (decode trim : String → String) where
    pub pool_options-IsFine :
        AllFine argv arg i c
          (pool_options argv build parse decode trim arg (ltb (i + 1) (length argv)) i c)
    unfolding pool_options set_ssl set_hwmon deprecated
    pool_options-IsFine =
        next_kept _ _ (farm-IsKept parse decode trim arg c)
        then next_kept _ _ (failover-IsKept parse decode trim arg c)
        then next_number _ _ (λ n k. k)
        then next_number _ _ (λ n k. k)
        then next_kept _ _ (stratum-IsKept parse decode trim arg c)
        then login_options-IsFine
        then plain _ _
            (flagged-IsFine _ _ _ refl (λ v. level-IsValid _ _ v) (λ s v. level-IsValid _ _ v))
        then credential_options-IsFine
        then plain _ _ (flagged-IsFine _ _ _ refl (λ v. v) (λ s v. v))
        then plain _ _ (omega arith, there, λ k. k)
        then next_kept _ _ (pool-IsKept parse decode trim arg c)
