-- ===== src/Auth/Paths.antt =====
-- What the tests of a path answer on the paths of each surface.
use Prim.Native.String.{◌++◌, slice, len}
use text.Mathlib.Text.{starts_with}
use text.Mathlib.TextPositions.{slice-append_left, starts_with-append}
use text.Mathlib.TextLemmas.{append_assoc}
use text.Mathlib.TextEquality.{starts_with_iff}
use shell_watch.Base.{
  ◌≡◌, refl, sym, ap, subst, ◌∙◌, ◌≢◌, Bool, true, false, String, List, [], ◌∷◌, ◌==◌, ==→≡,
  ==-refl, string_eq, arith, Bool-cases, inl, inr, contains,
}
use shell_watch.Auth.{is_exempt, required_scope, exempt_exact, exempt_prefixes, has_prefix}

-- The paths that need no token.
pub data IsOpen : String → Type 0 where
  health : IsOpen "/health"
  version : IsOpen "/api/version"
  config : IsOpen "/config.js"
  manifest : IsOpen "/manifest.json"
  registration : IsOpen "/api/auth/register"
  registration_options : IsOpen "/api/auth/register/options"
  passkey_status : IsOpen "/api/auth/passkey-status"
  hydra : (rest : String) → IsOpen ("/api/hydra/" ++ rest)
  invite_api : (rest : String) → IsOpen ("/api/passkey-invite/" ++ rest)
  invite : (rest : String) → IsOpen ("/passkey-invite/" ++ rest)
  well_known : (rest : String) → IsOpen ("/.well-known/" ++ rest)
  app : (rest : String) → IsOpen ("/_app/" ++ rest)

-- The surfaces, and the scope that each asks for: MCP, the agent proxy where it is enabled, the
-- browser's WebSocket, and the API but for its open paths.
pub data Asks (agent : Bool) : String → String → Type 0 where
  mcp_root : Asks agent "/mcp" "mcp"
  mcp_below : (rest : String) → Asks agent ("/mcp/" ++ rest) "mcp"
  agent_root : agent ≡ true → Asks agent "/agent-proxy" "agent"
  agent_below : (rest : String) → agent ≡ true → Asks agent ("/agent-proxy/" ++ rest) "agent"
  ws : Asks agent "/ws" "ui"
  api : (rest : String) → (IsOpen ("/api/" ++ rest) → ⊥) → Asks agent ("/api/" ++ rest) "ui"

abbrev five : String → String
five path = slice path 0 5

five_of : (p q u : String) → len p ≡ 5 → five ((p ++ q) ++ u) ≡ p
five_of p q u h =
    ap (λ v. slice v 0 5) (append_assoc p q u)
    ∙ ap (λ k. slice (p ++ (q ++ u)) 0 k) (sym h)
    ∙ slice-append_left p (q ++ u)

never : (b : Bool) → (b ≡ true → ⊥) → b ≡ false
never true h = absurd (h refl)
never false h = refl

differ : false ≡ true → ⊥
differ e = cc

apart : (a b : String) → (a == b) ≡ false → a ≢ b
apart a b h e = differ (sym h ∙ ap (λ s. s == b) e ∙ ==-refl b)

-- No open path begins like one of the MCP or of the agent proxy.
open_five : (path : String) → IsOpen path → (five path ≢ "/mcp/") × (five path ≢ "/agen")
unfolding string_eq
open_five _ health = (λ e. apart "/heal" "/mcp/" refl (e), λ e. apart "/heal" "/agen" refl (e))
open_five _ version = (λ e. apart "/api/" "/mcp/" refl e, λ e. apart "/api/" "/agen" refl e)
open_five _ config = (λ e. apart "/conf" "/mcp/" refl e, λ e. apart "/conf" "/agen" refl e)
open_five _ manifest = (λ e. apart "/mani" "/mcp/" refl e, λ e. apart "/mani" "/agen" refl e)
open_five _ registration = (λ e. apart "/api/" "/mcp/" refl e, λ e. apart "/api/" "/agen" refl e)
open_five _ registration_options =
    (λ e. apart "/api/" "/mcp/" refl e, λ e. apart "/api/" "/agen" refl e)
open_five _ passkey_status = (λ e. apart "/api/" "/mcp/" refl e, λ e. apart "/api/" "/agen" refl e)
open_five _ (hydra u) =
    let q = five_of "/api/" "hydra/" u refl in
    (λ e. apart "/api/" "/mcp/" refl (sym q ∙ e), λ e. apart "/api/" "/agen" refl (sym q ∙ e))
open_five _ (invite_api u) =
    let q = five_of "/api/" "passkey-invite/" u refl in
    (λ e. apart "/api/" "/mcp/" refl (sym q ∙ e), λ e. apart "/api/" "/agen" refl (sym q ∙ e))
open_five _ (invite u) =
    let q = five_of "/pass" "key-invite/" u refl in
    (λ e. apart "/pass" "/mcp/" refl (sym q ∙ e), λ e. apart "/pass" "/agen" refl (sym q ∙ e))
open_five _ (well_known u) =
    let q = five_of "/.wel" "l-known/" u refl in
    (λ e. apart "/.wel" "/mcp/" refl (sym q ∙ e), λ e. apart "/.wel" "/agen" refl (sym q ∙ e))
open_five _ (app u) =
    let q = five_of "/_app" "/" u refl in
    (λ e. apart "/_app" "/mcp/" refl (sym q ∙ e), λ e. apart "/_app" "/agen" refl (sym q ∙ e))

-- What the tables hold.
abbrev AllOpen : List String → Type 0
AllOpen [] = Unit
AllOpen (n ∷ ns) = IsOpen n × AllOpen ns

abbrev AllRoots : List String → Type 0
AllRoots [] = Unit
AllRoots (q ∷ qs) = ((u : String) → IsOpen (q ++ u)) × AllRoots qs

contains-IsOpen :
    (ns : List String) (path : String) → AllOpen ns → contains ns path ≡ true → IsOpen path
contains-IsOpen [] path a h = absurd (ground arith)
contains-IsOpen (n ∷ ns) path a h = elim (Bool-cases (n == path)) [
  | inl q ↦ subst IsOpen (==→≡ n path q) a.0
  | inr q ↦ contains-IsOpen ns path a.1 (rw q at h)
]

has_prefix-IsOpen :
    (qs : List String) (path : String) → AllRoots qs → has_prefix qs path ≡ true → IsOpen path
has_prefix-IsOpen [] path a h = absurd (ground arith)
has_prefix-IsOpen (q ∷ qs) path a h = elim (Bool-cases (starts_with path q)) [
  | inl s ↦ let (u, e) = (starts_with_iff path q).0 s in subst IsOpen e (a.0 u)
  | inr s ↦ has_prefix-IsOpen qs path a.1 (rw s at h)
]

pub exempt-IsOpen : (path : String) → is_exempt path ≡ true → IsOpen path
unfolding is_exempt
exempt-IsOpen path h = elim (Bool-cases (contains exempt_exact path)) [
  | inl c ↦
      contains-IsOpen exempt_exact path
        (
          health,
          (
            version,
            (config, (manifest, (registration, (registration_options, (passkey_status, tt))))),
          ),
        )
        c
  | inr c ↦
      has_prefix-IsOpen exempt_prefixes path
        (hydra, (invite_api, (invite, (well_known, (app, tt))))) (rw c at h)
]

-- A test that a path fails by its first five bytes.
is_not : (path q : String) → five path ≢ five q → (path == q) ≡ false
is_not path q n = never (path == q) (λ h. n (ap five (==→≡ path q h)))

begins_not : (path p q : String) → len p ≡ 5 → five path ≢ p → starts_with path (p ++ q) ≡ false
begins_not path p q l n =
    never (starts_with path (p ++ q)) (λ h.
      let (u, e) = (starts_with_iff path (p ++ q)).0 h in n (ap five (sym e) ∙ five_of p q u l))

closed_to : (path : String) → (IsOpen path → ⊥) → is_exempt path ≡ false
closed_to path n = never (is_exempt path) (λ h. n (exempt-IsOpen path h))

below_mcp : (rest : String) → five ("/mcp/" ++ rest) ≡ "/mcp/"
below_mcp rest = slice-append_left "/mcp/" rest

below_api : (rest : String) → five ("/api/" ++ rest) ≡ "/api/"
below_api rest = slice-append_left "/api/" rest

below_agent : (rest : String) → five ("/agent-proxy/" ++ rest) ≡ "/agen"
below_agent rest = five_of "/agen" "t-proxy/" rest refl

-- The path of a surface is not exempt, and the scope that it requires is the surface's.
pub surface_scope :
    (agent : Bool) (path scope : String)
    → Asks agent path scope
    → (is_exempt path ≡ false) × (required_scope path agent ≡ scope) × ((scope == "") ≡ false)
unfolding is_exempt required_scope string_eq
surface_scope agent _ _ mcp_root = (refl, refl, refl)
surface_scope agent _ _ (mcp_below rest) =
    let begun : starts_with ("/mcp/" ++ rest) "/mcp/" ≡ true = starts_with-append "/mcp/" rest in
    (
      closed_to ("/mcp/" ++ rest) (λ o. (open_five ("/mcp/" ++ rest) o).0 (below_mcp rest)),
      ground (arith, begun),
      refl,
    )
surface_scope agent _ _ (agent_root on) = (refl, rw on refl, refl)
surface_scope agent _ _ (agent_below rest on) =
    let path = "/agent-proxy/" ++ rest in
    let begun : starts_with path "/agent-proxy/" ≡ true = starts_with-append "/agent-proxy/" rest in
    let at = below_agent rest in
    (
      closed_to path (λ o. (open_five path o).1 at),
      rw
          (
            is_not path "/mcp" (λ e. apart "/agen" "/mcp" refl (sym at ∙ e)),
            begins_not path "/mcp/" "" refl (λ e. apart "/agen" "/mcp/" refl (sym at ∙ e)),
            on,
            begun,
          )
          (ground arith),
      refl,
    )
surface_scope agent _ _ ws = (refl, ground arith, refl)
surface_scope agent _ _ (api rest n) =
    let path = "/api/" ++ rest in
    let begun : starts_with path "/api/" ≡ true = starts_with-append "/api/" rest in
    let at = below_api rest in
    (
      closed_to path n,
      rw
          (
            is_not path "/mcp" (λ e. apart "/api/" "/mcp" refl (sym at ∙ e)),
            begins_not path "/mcp/" "" refl (λ e. apart "/api/" "/mcp/" refl (sym at ∙ e)),
            is_not path "/agent-proxy" (λ e. apart "/api/" "/agen" refl (sym at ∙ e)),
            begins_not path "/agen" "t-proxy/" refl (λ e. apart "/api/" "/agen" refl (sym at ∙ e)),
            is_not path "/ws" (λ e. apart "/api/" "/ws" refl (sym at ∙ e)),
            begun,
          )
          (ground arith),
      refl,
    )

-- An open path is exempt.
pub open_exempt : (path : String) → IsOpen path → is_exempt path ≡ true
unfolding is_exempt string_eq
open_exempt _ health = refl
open_exempt _ version = refl
open_exempt _ config = refl
open_exempt _ manifest = refl
open_exempt _ registration = refl
open_exempt _ registration_options = refl
open_exempt _ passkey_status = refl
open_exempt _ (hydra u) = ground (arith, starts_with-append "/api/hydra/" u)
open_exempt _ (invite_api u) = ground (arith, starts_with-append "/api/passkey-invite/" u)
open_exempt _ (invite u) = ground (arith, starts_with-append "/passkey-invite/" u)
open_exempt _ (well_known u) = ground (arith, starts_with-append "/.well-known/" u)
open_exempt _ (app u) = ground (arith, starts_with-append "/_app/" u)
