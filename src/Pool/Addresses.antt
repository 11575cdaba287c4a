-- ===== src/Pool/Addresses.antt =====
-- libpoolprotocols/PoolURI.{h,cpp}: the address of a pool, and the connection that PoolClient.h makes of
-- it. What parses an address, decodes the text of a part and trims it are libraries: parameters.
use prog_po_w_miner.Common.{
  ℕ, ◌+◌, List, [], ◌∷◌, map, Bool, true, false, Option, none, some, leb, if◌then◌else◌,
}
use prog_po_w_miner.Common.Text.{text, same_text}
use prog_po_w_miner.Common.Numerals.{atoi, to_unsigned}
use prog_po_w_miner.Pool.Client.{SecureLevel, tls12, tls, PoolConnection}
use Prim.Native.Nat.{Ordering}
use Prim.Native.String.{String, ◌++◌}
use Prim.Native.String

pub data ProtocolFamily : Type 0 where
  getwork stratum : ProtocolFamily

pub record SchemeAttributes : Type 0 where
  pub family : ProtocolFamily
  pub secure : SecureLevel
  pub version : ℕ

-- A map, in the order of its keys
abbrev pub Schemes : Type 0
Schemes = List (String × SchemeAttributes)

abbrev stratum_scheme : SecureLevel → ℕ → SchemeAttributes
stratum_scheme s v = record { family = stratum; secure = s; version = v }

-- `s_schemes`
abbrev pub s_schemes : Schemes
s_schemes =
    ("http", record { family = getwork; secure = SecureLevel.none; version = 0 })
    ∷ ("stratum+ssl", stratum_scheme tls12 0)
    ∷ ("stratum+tcp", stratum_scheme SecureLevel.none 0)
    ∷ ("stratum+tls", stratum_scheme tls 0)
    ∷ ("stratum+tls12", stratum_scheme tls12 0)
    ∷ ("stratum1+ssl", stratum_scheme tls12 1)
    ∷ ("stratum1+tcp", stratum_scheme SecureLevel.none 1)
    ∷ ("stratum1+tls", stratum_scheme tls 1)
    ∷ ("stratum1+tls12", stratum_scheme tls12 1)
    ∷ ("stratum2+ssl", stratum_scheme tls12 2)
    ∷ ("stratum2+tcp", stratum_scheme SecureLevel.none 2)
    ∷ ("stratum2+tls", stratum_scheme tls 2)
    ∷ ("stratum2+tls12", stratum_scheme tls12 2)
    ∷ []

-- `s_schemes.find(s)`
unfoldable pub find_scheme : String → Schemes → Option SchemeAttributes
find_scheme s [] = none
find_scheme s ((t, a) ∷ ts) = if same_text s t then some a else find_scheme s ts

abbrev no_attributes : SchemeAttributes
no_attributes = record { family = getwork; secure = SecureLevel.none; version = 0 }

unfoldable pub insert_scheme : String → Schemes → Schemes
insert_scheme s [] = (s, no_attributes) ∷ []
insert_scheme s ((t, a) ∷ ts) =
    let rest = insert_scheme s ts in
    elim (String.compare s t) [ Ordering.lt ↦ (s, no_attributes) ∷ (t, a) ∷ ts | _ ↦ (t, a) ∷ rest ]

-- `s_schemes[s]`, which adds the key if it is not there
unfoldable pub at_scheme : String → Schemes → SchemeAttributes × Schemes
at_scheme s ts = elim (find_scheme s ts) [
  | some a ↦ (a, ts)
  | none ↦ (no_attributes, insert_scheme s ts)
]

-- The parts that the parser finds in an address
pub record Parts : Type 0 where
  pub scheme : Option String
  pub host : Option String
  pub path : Option String
  pub port : Option String
  pub user_info : Option String

module _ (parse : String → Option Parts) where
  -- `URI(uri)`: nothing if the parser throws
  unfoldable pub uri : String → Option Parts
  uri u = parse (if leb (String.len u) (String.find u "://") then "unspecified://" ++ u else u)

module _ (decode trim : String → String) where
  -- `KnownScheme()`
  unfoldable pub known_scheme : Parts → Schemes → Bool
  known_scheme u ts = elim (u.scheme) [
    | none ↦ false
    | some s ↦ elim (find_scheme (trim s) ts) [ none ↦ false | some _ ↦ true ]
  ]

  -- What is read for the scheme of an address, or else the given value
  unfoldable pub scheme_entry {ℓ} :
      {A : Type ℓ} → (SchemeAttributes → A) → A → Parts → Schemes → A × Schemes
  scheme_entry get other u ts = elim (u.scheme) [
    | none ↦ (other, ts)
    | some s ↦ let (a, ts) = at_scheme (trim (decode s)) ts in (get a, ts)
  ]

  unfoldable pub proto_family : Parts → Schemes → ProtocolFamily × Schemes
  proto_family = scheme_entry (λ a. a.family) stratum

  unfoldable pub proto_version : Parts → Schemes → ℕ × Schemes
  proto_version = scheme_entry (λ a. a.version) 0

  unfoldable pub proto_secure_level : Parts → Schemes → SecureLevel × Schemes
  proto_secure_level = scheme_entry (λ a. a.secure) SecureLevel.none

  abbrev is_family : ProtocolFamily → ProtocolFamily → Bool
  is_family getwork getwork = true
  is_family stratum stratum = true
  is_family _ _ = false

  -- `KnownSchemes(family)`
  unfoldable pub known_schemes : ProtocolFamily → Schemes → String
  known_schemes f ts = trim (
      text (
        map (λ (e : String × SchemeAttributes). if is_family e.1.family f then e.0 ++ " " else "")
          ts))

  -- A part as text: `Scheme()`, `Host()` and `Path()`
  unfoldable pub part : Option String → String
  part none = ""
  part (some s) = trim (decode s)

  -- `Port()`
  unfoldable pub port : Parts → ℕ
  port u = elim (u.port) [ none ↦ 0 | some s ↦ to_unsigned 16 (atoi (trim (decode s))) ]

  -- `User()` and `Pswd()`: the parts of the user information before and behind its first ":"
  unfoldable pub user : Parts → String
  user u = elim (u.user_info) [
    | none ↦ ""
    | some s ↦ let s = trim (decode s) in String.slice s 0 (String.find s ":")
  ]

  unfoldable pub pswd : Parts → String
  pswd u = elim (u.user_info) [
    | none ↦ ""
    | some s ↦
        let s = trim (decode s) in
        let f = String.find s ":" in
        if leb (String.len s) f then "" else String.slice s (f + 1) (String.len s)
  ]

  -- `PoolConnection(uri)`
  unfoldable pub connection : Parts → Schemes → PoolConnection × Schemes
  connection u ts =
      let (level, ts) = proto_secure_level u ts in
      let (version, ts) = proto_version u ts in
      (
        record {
          host = part u.host;
          port = port u;
          user = user u;
          pass = pswd u;
          sec_level = level;
          version = version;
          path = part u.path;
        },
        ts,
      )
