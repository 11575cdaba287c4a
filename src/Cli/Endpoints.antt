-- ===== src/Cli/Endpoints.antt =====
-- `MinerCLI::interpretOption` of ethminer/MinerAux.h: the options that give the addresses of pools.
use prog_po_w_miner.Common.{
  ℕ, ◌+◌, List, Bool, true, false, not, ◌&&◌, Option, none, some, set, get_or, leb, ◌==◌,
  if◌then◌else◌,
}
use prog_po_w_miner.Common.Integers.{ℤ}
use prog_po_w_miner.Common.Result.{Result, ok, err, ◌>>=◌}
use prog_po_w_miner.Common.Text.{same_text}
use prog_po_w_miner.Common.Numerals.{atoi, to_unsigned}
use prog_po_w_miner.Pool.Client.{
  PoolConnection, no_connection, SecureLevel, tls12, tls, allow_selfsigned,
}
use prog_po_w_miner.Pool.Addresses.{
  Parts, uri, part, port, known_scheme, proto_family, connection, ProtocolFamily,
}
use prog_po_w_miner.Pool.Addresses
use prog_po_w_miner.Cli.{
  OperationMode, no_mode, farm, stratum, benchmark, simulation, MinerCli, CliError, bad_argument,
  Outcome, max_endpoints, primary, secondary, argument,
}
use Prim.Native.Char.{code}
use Prim.Native.String.{String}
use Prim.Native.String

-- `deprecated(arg)`
unfoldable pub deprecated : MinerCli → MinerCli
deprecated c = record c { legacy_parameters = true }

-- A change of one of the endpoints
unfoldable pub at_endpoint : ℕ → (PoolConnection → PoolConnection) → MinerCli → MinerCli
at_endpoint k f c = record c {
  endpoints = set c.endpoints k (f (get_or c.endpoints k no_connection));
}

unfoldable pub same_mode : OperationMode → OperationMode → Bool
same_mode no_mode no_mode = true
same_mode benchmark benchmark = true
same_mode simulation simulation = true
same_mode farm farm = true
same_mode stratum stratum = true
same_mode _ _ = false

-- A user and a password at the first ":". Without one its position is the greatest number and the next
-- one is 0.
unfoldable pub set_userpass : ℕ → String → MinerCli → MinerCli
set_userpass k s =
    let p = String.find s ":" in
    at_endpoint k (λ e. record e {
      user = String.slice s 0 p;
      pass = if leb (String.len s) p then s else String.slice s (p + 1) (String.len s);
    })

-- `--stratum-ssl`
unfoldable pub level_of : ℤ → SecureLevel
level_of n =
    let mode = to_unsigned 32 n in
    if mode == 1 then tls else if mode == 2 then allow_selfsigned else tls12

unfoldable pub set_level : SecureLevel → MinerCli → MinerCli
set_level l c =
    at_endpoint secondary (λ e. record e { sec_level = l })
      (at_endpoint primary (λ e. record e { sec_level = l }) c)

-- Whether an argument begins with "-"
unfoldable pub is_dashed : String → Bool
is_dashed s = code (String.char_at s 0) == 45

module _ (parse : String → Option Parts) (decode trim : String → String) where
  -- An address, which must have a host
  unfoldable pub address : String → (Parts → Result CliError MinerCli) → Result CliError MinerCli
  address url f = elim (uri parse url) [
    | none ↦ err bad_argument
    | some u ↦ if String.len (part decode trim u.host) == 0 then err bad_argument else f u
  ]

  -- `-F`
  unfoldable pub set_farm : String → MinerCli → Result CliError MinerCli
  set_farm url c =
      let c = record (deprecated c) { mode = farm } in
      address url (λ u.
        let p = port decode trim u in
        ok (
          at_endpoint primary
            (λ e. record e {
              host = part decode trim u.host;
              path = part decode trim u.path;
              port = if not (p == 0) then p else 80;
            })
            c))

  -- `-FF`
  unfoldable pub set_failover : String → MinerCli → Result CliError MinerCli
  set_failover url c =
      let c = deprecated c in
      address (if same_text url "exit" then "exit:1" else url) (λ u.
        let p = port decode trim u in
        let c =
          at_endpoint secondary
            (λ e. record e { host = part decode trim u.host; path = part decode trim u.path }) c in
        if same_mode c.mode stratum
        then (if not (p == 0)
            then ok (at_endpoint secondary (λ e. record e { port = p }) c)
            else err bad_argument)
        else ok c)

  -- `-S`
  unfoldable pub set_stratum : String → MinerCli → Result CliError MinerCli
  set_stratum url c =
      let c = record (deprecated c) { mode = stratum } in
      address url (λ u.
        let p = port decode trim u in
        if not (p == 0)
        then ok (at_endpoint primary (λ e. record e { host = part decode trim u.host; port = p }) c)
        else err bad_argument)

  abbrev pub family_mode : ProtocolFamily → OperationMode
  family_mode Addresses.stratum = stratum
  family_mode Addresses.getwork = farm

  -- The endpoint of an address whose scheme is known, and the mode for it
  unfoldable pub add_endpoint : Parts → MinerCli → Result CliError MinerCli
  add_endpoint u c =
      let (e, ts) = connection decode trim u c.schemes in
      let (family, ts) = proto_family decode trim u ts in
      let m = family_mode family in
      let c = record c { endpoints = set c.endpoints c.ep_ix e; schemes = ts } in
      if not (same_mode c.mode no_mode) && not (same_mode c.mode m)
      then err bad_argument
      else ok (record c { mode = m; ep_ix = c.ep_ix + 1 })

  -- `-P`
  unfoldable pub set_pool : String → MinerCli → Result CliError MinerCli
  set_pool url c =
      let c = record c { new_parameters = true } in
      elim (uri parse (if same_text url "exit" then "stratum://exit:1" else url)) [
        | none ↦ err bad_argument
        | some u ↦
            if not (known_scheme decode trim u c.schemes)
            then err bad_argument
            else if leb max_endpoints c.ep_ix
            then err bad_argument
            else add_endpoint u c
      ]

  module _ (argv : List String) where
    -- `--stratum-ssl`, whose level may stand behind it
    unfoldable pub set_ssl : (more : Bool) → ℕ → MinerCli → Outcome
    set_ssl more i c =
        let c = deprecated c in
        if more
        then (argument argv (i + 1) >>= λ s.
            if is_dashed s
            then ok (i, set_level tls12 c)
            else ok (i + 1, set_level (level_of (atoi s)) c))
        else ok (i, set_level tls12 c)

    -- `-HWMON`, behind which may stand whether power is shown
    unfoldable pub set_hwmon : (more : Bool) → ℕ → MinerCli → Outcome
    set_hwmon more i c =
        let c = record c { show_hwmonitors = true } in
        if more
        then (argument argv (i + 1) >>= λ s.
            if is_dashed s
            then ok (i, c)
            else ok (i + 1, record c { show_power = not (to_unsigned 32 (atoi s) == 0) }))
        else ok (i, c)
