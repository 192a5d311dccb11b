-- ===== src/Auth/Examples.antt =====
-- Tests of the gate, and instances of its theorems.
use shell_watch.Base.{
  ℕ, ◌≡◌, refl, ◌≢◌, ◌↔◌, ◌⊎◌, true, false, Option, none, some, String, [], ◌∷◌, ◌==◌,
  if◌then◌else◌, string_eq,
}
use shell_watch.Auth.{
  Principal, Request, is_exempt, required_scope, extract_token, passed_through, passed_as, refused,
  gate,
}
use shell_watch.Auth.Paths.{mcp_root}
use shell_watch.Auth.Gate.{bearer, gate_guards}
use shell_watch.Base.{contains}

abbrev owner : Principal
owner = record { account_id = "acc"; client_id = "cli"; scopes = "mcp" ∷ [] }

abbrev resolver : String → Option Principal
resolver token = if token == "secret" then some owner else none

abbrev mcp_request : Request
mcp_request = record { path = "/mcp"; authorization = "Bearer secret"; ws_protocols = [] }

passes_mcp : gate resolver false mcp_request ≡ passed_as owner
unfolding gate is_exempt required_scope extract_token string_eq
passes_mcp = refl

lacks_scope : gate resolver false (record mcp_request { path = "/api/endpoints" }) ≡ refused 403
unfolding gate is_exempt required_scope extract_token string_eq
lacks_scope = refl

health_is_open :
    gate resolver false (record mcp_request { path = "/health"; authorization = "" })
    ≡ passed_through
unfolding gate is_exempt required_scope extract_token string_eq
health_is_open = refl

gate_guards_example :
    ((p : Principal)
      → (gate resolver false mcp_request ≡ passed_as p)
        ↔ ((resolver "secret" ≡ some p) × (contains p.scopes "mcp" ≡ true)))
    × (gate resolver false mcp_request ≢ passed_through)
    × ((n : ℕ) → gate resolver false mcp_request ≡ refused n → (n ≡ 401) ⊎ (n ≡ 403))
unfolding string_eq
gate_guards_example =
    gate_guards resolver false mcp_request "mcp" "secret" mcp_root (bearer refl) refl
