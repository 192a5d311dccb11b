-- ===== src/Agent/Examples.antt =====
-- Tests of the agent sessions, and an instance of their theorem.
use shell_watch.Base.{
  suc, ◌+◌, arith, ◌≤◌, ◌≡◌, refl, false, none, some, [], lookup, insert, string_eq, nat_eq,
}
use shell_watch.Terminal.{Source-discrete, Status-discrete, EndpointRef}
use shell_watch.Terminal.Manager.{Manager, register, list_sessions, snapshot}
use shell_watch.Agent.{
  AgentSession, new_agent_session, owned_live, creating, cap_reached, create_session,
}
use shell_watch.Agent.Cap.{with_object, opened, create_session-caps}

abbrev client : AgentSession
client = record {
  account_id = "acc";
  client_id = "cli";
  source_ip = "10.0.0.1";
  max_owned = 1;
  client_name = "";
  client_ver = "";
}

abbrev empty : Manager
empty = record {
  destroyed = false;
  objects = [];
  terminals = [];
  max_buffer_size = 8;
  idle_timeout = 0;
}

abbrev endpoint : EndpointRef
endpoint = record { id = "e1"; account_id = "acc" }

abbrev after_first : Manager
after_first = with_object empty "s1" (opened client empty endpoint "work" "s1" 5)

unresolved_cap : (new_agent_session "acc" "cli" "10.0.0.1" none).max_owned ≡ 5
unfolding new_agent_session
unresolved_cap = refl

second_refused :
    create_session client after_first after_first (some endpoint) "work" "s2" 6 ≡ cap_reached
unfolding create_session owned_live list_sessions snapshot lookup insert string_eq Source-discrete
    Status-discrete
second_refused = refl

first_created :
    create_session client empty empty (some endpoint) "work" "s1" 5 ≡ creating after_first
unfolding create_session register owned_live list_sessions snapshot string_eq
first_created = refl

create_session-caps_example :
    (owned_live client after_first ≡ suc (owned_live client empty))
    × (owned_live client after_first ≤ 1 + 0)
create_session-caps_example =
    create_session-caps client empty empty after_first endpoint "work" "s1" 5 0 refl first_created
      (omega arith)
