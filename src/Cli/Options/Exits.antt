-- ===== src/Cli/Options/Exits.antt =====
-- The option `-P` of ethminer/MinerAux.h with the address "exit".
use prog_po_w_miner.Common.{◌≡◌, refl, ap, ◌∙◌, false, Option, none, some}
use prog_po_w_miner.Common.Result.{err}
use prog_po_w_miner.Common.Text.{same_text}
use prog_po_w_miner.Pool.Addresses.{Parts, Schemes, s_schemes, find_scheme, known_scheme, uri}
use prog_po_w_miner.Cli.{MinerCli, bad_argument}
use prog_po_w_miner.Cli.Endpoints.{set_pool}
use Prim.Native.String.{String}

uri_exit :
    (parse : String → Option Parts) (u : Parts)
    → parse "stratum://exit:1" ≡ some u
    → uri parse "stratum://exit:1" ≡ some u
unfolding uri
uri_exit parse u e = e

no_entry : find_scheme "stratum" s_schemes ≡ none
unfolding find_scheme same_text
no_entry = refl

missing :
    (trim : String → String) (c : MinerCli)
    → trim "stratum" ≡ "stratum"
    → c.schemes ≡ s_schemes
    → find_scheme (trim "stratum") c.schemes ≡ none
missing trim c t table =
    ap (λ (s : String). find_scheme s c.schemes) t
    ∙ ap (λ (ts : Schemes). find_scheme "stratum" ts) table
    ∙ no_entry

unknown :
    (decode trim : String → String) (u : Parts) (c : MinerCli)
    → u.scheme ≡ some "stratum"
    → trim "stratum" ≡ "stratum"
    → c.schemes ≡ s_schemes
    → known_scheme decode trim u c.schemes ≡ false
unfolding known_scheme
unknown decode trim u c s t table = rw (s, known_scheme, missing trim c t table) refl

-- With a parser that finds the scheme "stratum" in "stratum://exit:1", and a text without spaces that is not
-- trimmed, `-P exit` is refused: the scheme that it gets is not one of the table.
pub set_pool-exit :
    (parse : String → Option Parts) (decode trim : String → String) (c : MinerCli) (u : Parts)
    → parse "stratum://exit:1" ≡ some u
    → u.scheme ≡ some "stratum"
    → trim "stratum" ≡ "stratum"
    → c.schemes ≡ s_schemes
    → set_pool parse decode trim "exit" c ≡ err bad_argument
unfolding set_pool same_text
set_pool-exit parse decode trim c u e s t table =
    rw (set_pool, uri_exit parse u e, unknown decode trim u c s t table) refl
