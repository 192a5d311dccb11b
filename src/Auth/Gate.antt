-- ===== src/Auth/Gate.antt =====
-- Who passes the gate.
use Prim.Native.String.{◌++◌, slice, len}
use text.Mathlib.Text.{starts_with}
use text.Mathlib.TextPositions.{len-append, slice-append_right, starts_with-append}
use shell_watch.Base.{
  ◌∷◌, ap, ◌∙◌, ℕ, ◌≡◌, refl, subst, ◌≢◌, ◌↔◌, ◌⊎◌, Bool, true, false, not, ◌&&◌, Option, none,
  some, String, List, arith, ◌==◌, ≢→==, Bool-cases, inl, inr, string_eq, contains,
}
use shell_watch.Auth.Paths.{IsOpen, Asks, surface_scope, open_exempt}
use shell_watch.Auth.{
  Principal, Request, has_scope, is_exempt, required_scope, extract_token, passed_through,
  passed_as, refused, authorize, gate,
}

-- The path is guarded.
abbrev pub is_guarded : Bool → Request → Bool
is_guarded agent r = not (is_exempt r.path) && not (required_scope r.path agent == "")

-- The request's token is one that the resolver knows as the principal's, with the scope of the path.
abbrev pub IsEntitled : (String → Option Principal) → Bool → Request → Principal → Type 0
IsEntitled resolve agent r p =
    ((extract_token r == "") ≡ false)
    × (resolve (extract_token r) ≡ some p)
    × (has_scope p (required_scope r.path agent) ≡ true)

authorize-passes :
    (o : Option Principal) (scope : String) (p : Principal)
    → (authorize o scope ≡ passed_as p) ↔ ((o ≡ some p) × (has_scope p scope ≡ true))
authorize-passes none scope p = (λ h. cc, λ h. cc)
authorize-passes (some q) scope p = elim (Bool-cases (has_scope q scope)) [
  | inl has ↦ rw has (
    λ h. let same : q ≡ p = ground arith in (ground arith, rw⁻¹ same has),
    λ (e, k). ground arith,
  )
  | inr lacks ↦ rw lacks (
    λ h. cc,
    λ (e, k).
        let same : q ≡ p = ground arith in
        absurd (ground (arith, subst (λ (x : Principal). has_scope x scope ≡ false) same lacks)),
  )
]

authorize-answers :
    (o : Option Principal) (scope : String)
    → (authorize o scope ≢ passed_through)
      × ((n : ℕ) → authorize o scope ≡ refused n → (n ≡ 401) ⊎ (n ≡ 403))
authorize-answers none scope = (λ h. cc, λ n h. inl (ground arith))
authorize-answers (some q) scope = elim (Bool-cases (has_scope q scope)) [
  | inl has ↦ rw has (λ h. cc, λ n h. cc)
  | inr lacks ↦ rw lacks (λ h. cc, λ n h. inr (ground arith))
]

-- A request passes as a principal exactly if its path is guarded and its token resolves to that
-- principal with the scope of the path, and without a principal exactly if the path is not guarded;
-- whatever else comes is answered with 401 or 403.
pub gate-passes :
    (resolve : String → Option Principal) (agent : Bool) (r : Request)
    → ((p : Principal)
        → (gate resolve agent r ≡ passed_as p)
          ↔ ((is_guarded agent r ≡ true) × IsEntitled resolve agent r p))
      × ((gate resolve agent r ≡ passed_through) ↔ (is_guarded agent r ≡ false))
      × ((n : ℕ) → gate resolve agent r ≡ refused n → (n ≡ 401) ⊎ (n ≡ 403))
unfolding gate
gate-passes resolve agent r = elim (Bool-cases (is_exempt r.path)) [
  | inl e ↦ rw e (λ p. (λ h. cc, λ h. cc), (λ h. refl, λ h. refl), λ n h. cc)
  | inr e ↦ elim (Bool-cases (required_scope r.path agent == "")) [
    | inl f ↦ rw (e, f) (λ p. (λ h. cc, λ h. cc), (λ h. refl, λ h. refl), λ n h. cc)
    | inr f ↦ elim (Bool-cases (extract_token r == "")) [
      | inl t ↦
          rw (e, f, t) (λ p. (λ h. cc, λ h. cc), (λ h. cc, λ h. cc), λ n h. inl (ground arith))
      | inr t ↦
          let o = resolve (extract_token r) in
          let scope = required_scope r.path agent in
          let (never, codes) = authorize-answers o scope in
          rw (e, f, t)
            (
              λ p. (
                λ h. let (a, b) = (authorize-passes o scope p).0 h in (refl, (refl, a, b)),
                λ (_, (_, a, b)). (authorize-passes o scope p).1 (a, b),
              ),
              (λ h. absurd (never h), λ h. cc),
              codes,
            )
    ]
  ]
]

-- A request offers a token as the bearer in its header or, on the WebSocket path and without such a
-- header, as the subprotocol after the sentinel.
pub data Offers (r : Request) (token : String) : Type 0 where
  bearer : r.authorization ≡ "Bearer " ++ token → Offers r token
  subprotocol :
      (rest : List String)
      → r.path ≡ "/ws"
      → starts_with r.authorization "Bearer " ≡ false
      → r.ws_protocols ≡ "shellwatch.bearer" ∷ token ∷ rest
      → Offers r token

after_bearer : (t : String) → slice ("Bearer " ++ t) 7 (len ("Bearer " ++ t)) ≡ t
after_bearer t =
    ap (slice ("Bearer " ++ t) 7) (len-append "Bearer " t) ∙ slice-append_right "Bearer " t

offered :
    (r : Request) (token : String)
    → (token == "") ≡ false
    → Offers r token
    → extract_token r ≡ token
unfolding extract_token string_eq
offered r token n (bearer e) = rw (e, starts_with-append "Bearer " token) (after_bearer token)
offered r token n (subprotocol rest w b e) = rw (b, w, e, n) refl

-- On the path of a surface, which `Asks` writes out, a request that offers a token passes exactly as
-- the principal that the token stands for and that has the surface's scope; it never passes without
-- one, and is answered with 401 or 403 otherwise.
pub gate_guards :
    (resolve : String → Option Principal) (agent : Bool) (r : Request) (scope token : String)
    → Asks agent r.path scope
    → Offers r token
    → (token == "") ≡ false
    → ((p : Principal)
        → (gate resolve agent r ≡ passed_as p)
          ↔ ((resolve token ≡ some p) × (contains p.scopes scope ≡ true)))
      × (gate resolve agent r ≢ passed_through)
      × ((n : ℕ) → gate resolve agent r ≡ refused n → (n ≡ 401) ⊎ (n ≡ 403))
gate_guards resolve agent r scope token a has n =
    let (named, through, codes) = gate-passes resolve agent r in
    let (shut, asked, some_scope) = surface_scope agent r.path scope a in
    let took = offered r token n has in
    let guarded : is_guarded agent r ≡ true = rw (shut, asked, some_scope) refl in
    (
      λ p. (
        λ h. let (_, (_, found, scoped)) = (named p).0 h in (rw took at found, rw asked at scoped),
        λ (found, scoped). (named p).1 (guarded, (rw took n, rw took found, rw asked scoped)),
      ),
      λ h. let no = through.0 h in cc,
      codes,
    )

-- On an open path, which `IsOpen` writes out, every request passes without a principal.
pub gate_opens :
    (resolve : String → Option Principal) (agent : Bool) (r : Request)
    → IsOpen r.path
    → gate resolve agent r ≡ passed_through
gate_opens resolve agent r o = (gate-passes resolve agent r).1.1 (rw (open_exempt r.path o) refl)

-- Off the WebSocket path the offered subprotocols change nothing: no token comes from them.
pub gate-ignores_protocols :
    (resolve : String → Option Principal) (agent : Bool) (r : Request) (ps : List String)
    → r.path ≢ "/ws"
    → gate resolve agent (record r { ws_protocols = ps }) ≡ gate resolve agent r
unfolding gate extract_token
gate-ignores_protocols resolve agent r ps off = rw (≢→== r.path "/ws" off) refl
