-- ===== src/Realip.antt =====
-- internal/realip/realip.go, the address of a client behind proxies, and internal/auth/ipallowlist.go,
-- which admits addresses to /mcp. Addresses and networks are Go's `net` package and its texts
-- `strings`: the parameters below. A header's value is the list of its parts, split at the commas
-- and trimmed.
pub mod Route
pub mod Examples
use mathlib.Core.List.{reverse}
use shell_watch.Base.{
  ℕ, Bool, true, false, not, ◌&&◌, Option, none, some, String, List, [], ◌∷◌, ◌++◌, ◌==◌,
  if◌then◌else◌, string_eq,
}

-- `net.ParseIP`, `net.ParseCIDR`, the network of a single address, `Contains`, and an address without
-- its zone.
pub record Net : Type 1 where
  pub Ip : Type 0
  pub IpNet : Type 0
  pub parse_ip : String → Option Ip
  pub parse_cidr : String → Option IpNet
  pub single : Ip → IpNet
  pub has : IpNet → Ip → Bool
  pub strip_zone : String → String

abbrev pub presets : String → Option (List String)
presets s =
    if s == "loopback"
    then some ("127.0.0.0/8" ∷ "::1/128" ∷ [])
    else if s == "linklocal"
    then some ("169.254.0.0/16" ∷ "fe80::/10" ∷ [])
    else if s == "uniquelocal"
    then some ("10.0.0.0/8" ∷ "172.16.0.0/12" ∷ "192.168.0.0/16" ∷ "fc00::/7" ∷ [])
    else none

-- `trustProxy`: a boolean, or the trimmed entries of a text or a list.
pub data TrustProxy : Type 0 where
  flag : Bool → TrustProxy
  entries : List String → TrustProxy

-- The parts of all `X-Forwarded-For` headers, in order.
abbrev pub without_empty : List String → List String
without_empty [] = []
without_empty (p ∷ ps) = let rest = without_empty ps in if p == "" then rest else p ∷ rest

abbrev pub forwarded_chain : List (List String) → List String
forwarded_chain [] = []
forwarded_chain (h ∷ hs) = without_empty h ++ forwarded_chain hs

module _ (n : Net) where
  open n use {Ip, IpNet, parse_ip, parse_cidr, single, has, strip_zone}

  pub record Resolver : Type 0 where
    pub trust_all : Bool
    pub nets : List IpNet

  -- The entries that `ParseCIDR` takes.
  abbrev pub cidrs : List String → List IpNet
  cidrs [] = []
  cidrs (c ∷ cs) = let rest = cidrs cs in elim (parse_cidr c) [ none ↦ rest | some x ↦ x ∷ rest ]

  -- The networks that `addEntry` adds.
  unfoldable pub entry_nets : String → List IpNet
  entry_nets entry = if entry == "" then [] else elim (presets entry) [
    | some cs ↦ cidrs cs
    | none ↦ elim (parse_cidr entry) [
      | some x ↦ x ∷ []
      | none ↦ elim (parse_ip entry) [ some ip ↦ single ip ∷ [] | none ↦ [] ]
    ]
  ]

  abbrev pub nets_of : List String → List IpNet
  nets_of [] = []
  nets_of (e ∷ es) = entry_nets e ++ nets_of es

  unfoldable pub new_resolver : TrustProxy → Resolver
  unfolding entry_nets
  new_resolver (flag b) = record { trust_all = b; nets = [] }
  new_resolver (entries es) = record { trust_all = false; nets = nets_of es }

  abbrev pub any_has : List IpNet → Ip → Bool
  any_has [] ip = false
  any_has (x ∷ xs) ip = if has x ip then true else any_has xs ip

  unfoldable pub trusted : Resolver → String → Bool
  trusted r ip =
      if r.trust_all
      then true
      else elim (parse_ip (strip_zone ip)) [ none ↦ false | some p ↦ any_has r.nets p ]

  abbrev pub is_empty : List IpNet → Bool
  is_empty [] = true
  is_empty _ = false

  -- The loop, over the chain from its end.
  unfoldable pub walk : Resolver → String → List String → String
  unfolding trusted
  walk r current [] = current
  walk r current (x ∷ xs) = elim (trusted r current) [ false ↦ current | true ↦ walk r x xs ]

  unfoldable pub client_ip : Resolver → String → List (List String) → String
  unfolding walk
  client_ip r peer headers =
      if not r.trust_all && is_empty r.nets
      then peer
      else walk r peer (reverse (forwarded_chain headers))

  -- `IPChecker`
  abbrev pub new_ip_checker : List String → List IpNet
  new_ip_checker = cidrs

  unfoldable pub allowed : List IpNet → String → Bool
  allowed nets ip = elim (parse_ip (strip_zone ip)) [ none ↦ false | some p ↦ any_has nets p ]

  -- `Middleware` of the allowlist behind that of the resolver: whether the request is served.
  -- `FromRequest` takes the peer where the resolver found no text, which is only where the peer is none.
  unfoldable pub admits : Resolver → List IpNet → String → List (List String) → Bool
  unfolding client_ip allowed
  admits r nets peer headers = allowed nets (client_ip r peer headers)
