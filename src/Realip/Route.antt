-- ===== src/Realip/Route.antt =====
-- The way of a request through the proxies, against what its sender writes into the header.
use mathlib.Core.List.{reverse, reverse-append, reverse-reverse}
use shell_watch.Base.{
  ◌≡◌, refl, sym, ap, ◌∙◌, true, false, not, ◌&&◌, String, List, [], ◌∷◌, ◌++◌, Bool-cases, inl,
  inr, arith,
}
use shell_watch.Realip.{
  Net, Resolver, trusted, walk, is_empty, forwarded_chain, client_ip, allowed, admits,
}

-- The last of the peer and the hops behind it.
abbrev pub origin : String → List String → String
origin peer [] = peer
origin peer (h ∷ hs) = origin h hs

module _ (n : Net) where
  -- The peer and the hops, from the nearest on: all are trusted but the last, the client.
  abbrev pub IsRoute : Resolver n → String → List String → Type 0
  IsRoute r peer [] = trusted n r peer ≡ false
  IsRoute r peer (h ∷ hs) = (trusted n r peer ≡ true) × IsRoute r h hs

  walk_route :
      (r : Resolver n) (peer : String) (hops forged : List String)
      → IsRoute r peer hops
      → walk n r peer (hops ++ forged) ≡ origin peer hops
  unfolding walk
  walk_route r peer [] [] u = refl
  walk_route r peer [] (f ∷ fs) u = rw (u, walk) refl
  walk_route r peer (h ∷ hs) forged u = rw (u.0, walk) (walk_route r h hs forged u.1)

  -- With no networks and no trust in all, nothing is trusted.
  no_trust :
      (r : Resolver n) (ip : String)
      → (not r.trust_all && is_empty n r.nets) ≡ true
      → trusted n r ip ≡ false
  unfolding trusted
  no_trust r ip e = ground arith

  untrusting :
      (r : Resolver n) (peer : String) (hops : List String)
      → (not r.trust_all && is_empty n r.nets) ≡ true
      → IsRoute r peer hops
      → origin peer hops ≡ peer
  untrusting r peer [] e u = refl
  untrusting r peer (h ∷ hs) e u = absurd (differ (sym u.0 ∙ no_trust r peer e))
    where
      differ : true ≡ false → ⊥
      differ e = cc

  client_ip_route :
      (r : Resolver n) (peer : String) (hops forged : List String) (headers : List (List String))
      → forwarded_chain headers ≡ forged ++ reverse hops
      → IsRoute r peer hops
      → client_ip n r peer headers ≡ origin peer hops
  unfolding client_ip
  client_ip_route r peer hops forged headers e u =
      elim (Bool-cases (not r.trust_all && is_empty n r.nets)) [
        | inl t ↦ rw t (sym (untrusting r peer hops t u))
        | inr t ↦ rw t (
            ap (λ x. walk n r peer (reverse x)) e
            ∙ ap (walk n r peer) (reverse-append forged (reverse hops))
            ∙ ap (λ x. walk n r peer (x ++ reverse forged)) (reverse-reverse hops)
            ∙ walk_route r peer hops (reverse forged) u)
      ]

-- A request reaches the server over proxies, all of which the resolver trusts, from a client that it
-- does not trust; each proxy adds the address that it was called from to the end of the header. Then
-- the address of the client is what the resolver finds and what the allowlist of /mcp looks at,
-- whatever the client wrote into the header before; without any proxy it is the peer's.
pub admits-origin :
    (n : Net) (r : Resolver n) (nets : List n.IpNet) (peer : String) (hops forged : List String)
    (headers : List (List String))
    → forwarded_chain headers ≡ forged ++ reverse hops
    → IsRoute n r peer hops
    → (client_ip n r peer headers ≡ origin peer hops)
      × (admits n r nets peer headers ≡ allowed n nets (origin peer hops))
unfolding admits
admits-origin n r nets peer hops forged headers e u =
    let found = client_ip_route n r peer hops forged headers e u in
    (found, ap (allowed n nets) found)
