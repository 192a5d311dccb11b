-- ===== src/Approval/Examples.antt =====
-- Tests of the pending actions, and instances of their theorems.
use shell_watch.Base.{
  ◌+◌, ◌≤◌, ◌≡◌, refl, ◌≢◌, ◌↔◌, true, false, none, some, List, [], ◌∷◌, ◌++◌, arith, lookup,
  insert, string_eq, length,
}
use shell_watch.Approval.{
  ActionType-discrete, webauthn_sign, Status, Action, Context, CreateParams, SignResponse,
}
use shell_watch.Approval.Store.{
  Actions, take_pending, resolve_sign, deny, sweep, cancel_for_connection,
}
use shell_watch.Approval.Claims.{IsClaimable, take_pending-wins}
use shell_watch.Approval.Once.{run_resolves_once}
use shell_watch.Approval.History.{
  Call, resolves_signs, denies, cancels, sweeps, Keyed, step, run, events, callbacks, pend,
}
use shell_watch.Approval.Sweeps.{IsSwept, sweep-IsSwept, cancel_for_connection-cancels}
use shell_watch.Approval.Broker.{SignRequest, sign_params, open_request, arrived}
use shell_watch.Approval.Broker.Waits.{request_answered_once, request_ends}
use shell_watch.Approval.Answers.{IsCallable}

abbrev no_context : Context
no_context = record {
  source = "agent-proxy";
  endpoint_label = "";
  endpoint_address = "";
  session_id = "";
  source_ip = "10.0.0.1";
  client_hostname = "";
  client_os = "";
  client_version = "";
  host_key = none;
  trigger_kind = "";
  mcp_reason = "";
  mcp_client_name = "";
  mcp_client_ver = "";
}

abbrev request : SignRequest
request = record {
  credential_id = "cred";
  bytes_to_sign = 1 ∷ 2 ∷ [];
  rp_id = "localhost";
  user_verification = "";
  passkey_label = "laptop";
  connection_id = "conn";
}

abbrev params : CreateParams
params = record {
  account_id = "acc";
  action_type = webauthn_sign;
  context = no_context;
  redirect_to = "";
  connection_id = "conn";
  credential_id = "cred";
  challenge = "AQI=";
  rp_id = "localhost";
  passkey_label = "laptop";
  user_verification = "required";
  key_label = "";
  key_fingerprint = "";
  has_resolve_sign = true;
  has_resolve_key = false;
  has_reject = true;
}

params_of_request : sign_params (λ _. "AQI=") "acc" request no_context "" ≡ params
unfolding sign_params string_eq
params_of_request = refl

abbrev waiting : Action
waiting = record {
  id = "x";
  status = Status.pending;
  created_at = 0;
  expires_at = 60000000000;
  params = params;
}

abbrev one : Actions
one = ("x", waiting) ∷ []

one-Keyed : Keyed one
unfolding lookup
one-Keyed = (refl, refl, tt)

one_found : lookup "x" one ≡ some waiting
unfolding lookup string_eq
one_found = refl

abbrev response : SignResponse
response = record { authenticator_data = []; signature = []; client_data_json = []; action_id = "" }

-- The second of two answers is told what the first one did.
answered_twice :
    (resolve_sign (deny one "x" 5 6).0 "x" response 7 8).1
    ≡ record { won = false; found = true; status = some Status.denied }
unfolding deny resolve_sign take_pending lookup insert string_eq ActionType-discrete
answered_twice = refl

take_pending-wins_example :
    ((take_pending one "x" (some webauthn_sign) Status.completed 5 6).2.won ≡ true)
    ↔ IsClaimable one "x" (some webauthn_sign) 5
take_pending-wins_example = take_pending-wins one "x" (some webauthn_sign) Status.completed 5 6

abbrev race : List Call
race =
    denies "x" 5 6
    ∷ resolves_signs "x" response 7 8
    ∷ cancels "conn" "closed" 9
    ∷ sweeps 70000000000 70000000001
    ∷ []

run_resolves_once_example :
    (events "x" (run one race).1 + pend (lookup "x" (run one race).0) ≡ pend (lookup "x" one))
    × (callbacks "x" (run one race).1 ≤ events "x" (run one race).1)
    × (callbacks "x" (run one race).1 ≤ 1)
run_resolves_once_example = run_resolves_once "x" one race one-Keyed tt

sweep-IsSwept_example :
    IsSwept 60000000000 (lookup "x" one) (lookup "x" (sweep one 60000000000 60000000001).0)
sweep-IsSwept_example = sweep-IsSwept one 60000000000 60000000001 "x" one-Keyed

cancel_for_connection-cancels_example :
    let after = lookup "x" (cancel_for_connection one "conn" "closed" 5).0 in
    (waiting.status ≡ Status.pending
      → waiting.connection_id ≡ "conn"
      → after ≡ some (record waiting { status = Status.denied }))
    × (waiting.status ≡ Status.pending → waiting.connection_id ≢ "conn" → after ≡ some waiting)
    × (waiting.status ≢ Status.pending → after ≡ some waiting)
cancel_for_connection-cancels_example =
    cancel_for_connection-cancels one "conn" "closed" 5 "x" waiting one-Keyed one_found

params-IsCallable : IsCallable params
params-IsCallable = record { may_reject = refl; may_sign = λ _. refl; may_approve = λ e. cc }

request_answered_once_example :
    let (t, es) = run (open_request "https://host" [] params "x" 0).0 race in
    length (arrived "x" es) + pend (lookup "x" t) ≡ 1
request_answered_once_example =
    request_answered_once "https://host" "x" [] params 0 race tt params-IsCallable tt

request_ends_example :
    let t = (run (open_request "https://host" [] params "x" 0).0 []).0 in
    (length (
        arrived "x" (
          (run (open_request "https://host" [] params "x" 0).0 []).1
          ++ (step t (sweeps 60000000000 60000000001)).1))
      ≡ 1)
    × (pend (lookup "x" (step t (sweeps 60000000000 60000000001)).0) ≡ 0)
request_ends_example =
    request_ends "https://host" "x" [] params 0 [] 60000000000 60000000001 tt params-IsCallable tt
      (omega arith)
