-- ===== src/Agent.antt =====
-- internal/agent/session.go: what one MCP client may do with the terminal sessions. The endpoint that
-- the account's endpoint service finds is an argument, and so is the id that the manager generates.
-- A negative cap, which stands for an unresolved one, is `none`. The endpoint calls, the input and
-- the long poll are left out.
pub mod Cap
pub mod Examples
use mathlib.Core.Logic.{ite}
use shell_watch.Base.{
  ℕ, Bool, true, false, not, ◌&&◌, Option, none, some, String, List, leb, ◌==◌, if◌then◌else◌,
  length, string_eq,
}
use shell_watch.Terminal.{mcp, Source-discrete, Session, Trigger, EndpointRef}
use shell_watch.Terminal.Manager.{
  Manager, Registered, registered, refused, register, is_dead, select, list_sessions, CreateError,
}

pub record AgentSession : Type 0 where
  pub account_id : String
  pub client_id : String
  pub source_ip : String
  pub max_owned : ℕ
  pub client_name : String
  pub client_ver : String

unfoldable pub new_agent_session : String → String → String → Option ℕ → AgentSession
new_agent_session account_id client_id source_ip max_owned = record {
  account_id = account_id;
  client_id = client_id;
  source_ip = source_ip;
  max_owned = elim max_owned [ none ↦ 5 | some n ↦ n ];
  client_name = "";
  client_ver = "";
}

abbrev pub owns_session : AgentSession → Session → Bool
owns_session a s =
    ite (Source-discrete s.source mcp) true false
    && (s.account_id == a.account_id && s.owner_client_id == a.client_id)

abbrev pub is_owned_live : AgentSession → Session → Bool
is_owned_live a s = owns_session a s && not (is_dead s)

-- The loop of `CreateSession` that counts.
unfoldable pub owned_live : AgentSession → Manager → ℕ
owned_live a m = length (select (is_owned_live a) (list_sessions m))

unfoldable pub list_owned : AgentSession → Manager → List Session
list_owned a m = select (owns_session a) (list_sessions m)

abbrev pub trigger_of : AgentSession → String → Trigger
trigger_of a reason = record {
  kind = mcp;
  source_ip = a.source_ip;
  reason = reason;
  owner_client_id = a.client_id;
  mcp_client_name = a.client_name;
  mcp_client_ver = a.client_ver;
}

pub data Created : Type 0 where
  unknown_endpoint cap_reached : Created
  refused_by_manager : CreateError → Created
  creating : Manager → Created

abbrev pub created_by : Registered → Created
created_by (refused e) = refused_by_manager e
created_by (registered m) = creating m

-- `CreateSession`, up to the part of `Create` that registers the session. The count of the live
-- sessions and the registration are two sections under the manager's mutex: the first argument is
-- the manager when they are counted, the second is the manager when the session is registered.
unfoldable pub create_session :
    AgentSession → Manager → Manager → Option EndpointRef → String → String → ℕ → Created
create_session a counted m none reason id now = unknown_endpoint
create_session a counted m (some ep) reason id now =
    if leb a.max_owned (owned_live a counted)
    then cap_reached
    else created_by (register m ep a.account_id (trigger_of a reason) id now)
