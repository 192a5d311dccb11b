-- ===== src/Auth.antt =====
-- internal/auth/gate.go: the bearer gate in front of every surface. The resolver of a token, which
-- asks the OAuth server, is the argument `resolve`; the parts of the Sec-WebSocket-Protocol header,
-- split at the commas and trimmed, are a field of the request. An empty text stands for a missing
-- header, and an empty scope for none. The WWW-Authenticate header is left out, and so is the
-- write-behind of the last use.
pub mod Paths
pub mod Gate
pub mod Examples
use Prim.Native.String.{slice, len}
use mathlib.Core.Option
use text.Mathlib.Text.{starts_with}
use shell_watch.Base.{
  ℕ, Bool, true, false, not, ◌&&◌, ◌||◌, Option, none, some, String, List, [], ◌∷◌, ◌==◌,
  if◌then◌else◌, contains, string_eq,
}

abbrev pub ui_scope : String
ui_scope = "ui"

abbrev pub mcp_scope : String
mcp_scope = "mcp"

abbrev pub agent_scope : String
agent_scope = "agent"

abbrev pub ws_bearer_subprotocol : String
ws_bearer_subprotocol = "shellwatch.bearer"

abbrev pub exempt_exact : List String
exempt_exact =
    "/health" ∷ "/api/version" ∷ "/config.js" ∷ "/manifest.json" ∷ "/api/auth/register"
    ∷ "/api/auth/register/options" ∷ "/api/auth/passkey-status" ∷ []

abbrev pub exempt_prefixes : List String
exempt_prefixes =
    "/api/hydra/" ∷ "/api/passkey-invite/" ∷ "/passkey-invite/" ∷ "/.well-known/" ∷ "/_app/" ∷ []

pub record Principal : Type 0 where
  pub account_id : String
  pub client_id : String
  pub scopes : List String

pub record Request : Type 0 where
  pub path : String
  pub authorization : String
  pub ws_protocols : List String

abbrev pub has_scope : Principal → String → Bool
has_scope p s = contains p.scopes s

abbrev pub has_prefix : List String → String → Bool
has_prefix [] path = false
has_prefix (p ∷ ps) path =
    let rest = has_prefix ps path in if starts_with path p then true else rest

unfoldable pub is_exempt : String → Bool
is_exempt path = if contains exempt_exact path then true else has_prefix exempt_prefixes path

unfoldable pub required_scope : String → Bool → String
required_scope path agent_proxy_enabled =
    if path == "/mcp" || starts_with path "/mcp/"
    then mcp_scope
    else if agent_proxy_enabled && (path == "/agent-proxy" || starts_with path "/agent-proxy/")
    then agent_scope
    else if path == "/ws"
    then ui_scope
    else if starts_with path "/api/"
    then ui_scope
    else ""

-- The token among the offered subprotocols: the second, after the sentinel.
abbrev pub smuggled : List String → String
smuggled [] = ""
smuggled (_ ∷ []) = ""
smuggled (sentinel ∷ token ∷ _) =
    if sentinel == ws_bearer_subprotocol && not (token == "") then token else ""

unfoldable pub extract_token : Request → String
extract_token r =
    if starts_with r.authorization "Bearer "
    then slice r.authorization 7 (len r.authorization)
    else if r.path == "/ws"
    then smuggled r.ws_protocols
    else ""

-- The next handler without a principal or with one, or an answer with a status.
pub data Outcome : Type 0 where
  passed_through : Outcome
  passed_as : Principal → Outcome
  refused : ℕ → Outcome

abbrev pub authorize : Option Principal → String → Outcome
authorize none scope = refused 401
authorize (some p) scope = if not (has_scope p scope) then refused 403 else passed_as p

unfoldable pub gate : (String → Option Principal) → Bool → Request → Outcome
gate resolve agent_proxy_enabled r =
    if is_exempt r.path
    then passed_through
    else (let scope = required_scope r.path agent_proxy_enabled in
        if scope == ""
        then passed_through
        else (let token = extract_token r in
            if token == "" then refused 401 else authorize (resolve token) scope))
