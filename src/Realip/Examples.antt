-- ===== src/Realip/Examples.antt =====
-- A request over two proxies, whose client has forged a header.
use shell_watch.Base.{◌≡◌, refl, false, none, some, String, [], ◌∷◌, ◌==◌, string_eq}
use shell_watch.Realip.{Net, entries, new_resolver, trusted, client_ip, admits, Resolver}
use shell_watch.Realip.Route.{admits-origin}

-- Texts as addresses, and networks of one address each.
abbrev texts : Net
texts = record {
  Ip = String;
  IpNet = String;
  parse_ip = some;
  parse_cidr = λ s. none;
  single = λ s. s;
  has = λ a b. a == b;
  strip_zone = λ s. s;
}

abbrev behind : Resolver texts
behind = new_resolver texts (entries ("10.0.0.1" ∷ "10.0.0.2" ∷ []))

admits-origin_example :
    (client_ip texts behind "10.0.0.1" (("127.0.0.1" ∷ "203.0.113.9" ∷ []) ∷ ("10.0.0.2" ∷ []) ∷ [])
      ≡ "203.0.113.9")
    × (admits texts behind
          ("127.0.0.1" ∷ [])
          "10.0.0.1"
          (("127.0.0.1" ∷ "203.0.113.9" ∷ []) ∷ ("10.0.0.2" ∷ []) ∷ [])
        ≡ false)
unfolding new_resolver trusted string_eq shell_watch.Realip.allowed
admits-origin_example =
    admits-origin texts behind ("127.0.0.1" ∷ []) "10.0.0.1" ("10.0.0.2" ∷ "203.0.113.9" ∷ [])
      ("127.0.0.1" ∷ []) (("127.0.0.1" ∷ "203.0.113.9" ∷ []) ∷ ("10.0.0.2" ∷ []) ∷ []) refl
      (refl, (refl, refl))
