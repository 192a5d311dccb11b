-- ===== src/Approval/Broker.antt =====
-- internal/approval/broker.go: a sign request creates an action, tells every channel of it, and waits
-- for the first of three things: a signature on one channel, an error on the other, or the end of
-- its context. `encode` is base64.StdEncoding.EncodeToString. A message on a channel is a call of
-- the action's callback, so what has arrived is read off the effects of the store.
pub mod Waits
use shell_watch.Base.{
  ℕ, ◌≡◌, Bool, true, false, String, List, [], ◌∷◌, ◌==◌, if◌then◌else◌, string_eq,
}
use Prim.Native.String.{◌++◌ as ◌<>◌}
use shell_watch.Approval.{
  Action, Context, CreateParams, webauthn_sign, key_approve, SignResponse, SignError, Effect,
  created, resolves_sign, resolves_key, rejects, resolved,
}
use shell_watch.Approval.Store.{Actions, create, cancel_for_connection}

-- signing.SignRequest
pub record SignRequest : Type 0 where
  pub credential_id : String
  pub bytes_to_sign : List ℕ
  pub rp_id : String
  pub user_verification : String
  pub passkey_label : String
  pub connection_id : String

pub record KeyApproval : Type 0 where
  pub account_id : String
  pub key_label : String
  pub key_fingerprint : String
  pub connection_id : String
  pub context : Context
  pub redirect_to : String

unfoldable pub or_default : String → String → String
or_default s def = if s == "" then def else s

-- What the broker sends to its notification channels, in order.
pub data Notice : Type 0 where
  notify : Action → String → Notice
  notify_resolved : Action → Notice

unfoldable pub sign_params :
    (List ℕ → String) → String → SignRequest → Context → String → CreateParams
unfolding or_default
sign_params encode account req ctx redirect = record {
  account_id = account;
  action_type = webauthn_sign;
  context = ctx;
  redirect_to = redirect;
  connection_id = req.connection_id;
  credential_id = req.credential_id;
  challenge = encode req.bytes_to_sign;
  rp_id = req.rp_id;
  passkey_label = req.passkey_label;
  user_verification = or_default req.user_verification "required";
  key_label = "";
  key_fingerprint = "";
  has_resolve_sign = true;
  has_resolve_key = false;
  has_reject = true;
}

unfoldable pub key_params : KeyApproval → CreateParams
key_params p = record {
  account_id = p.account_id;
  action_type = key_approve;
  context = p.context;
  redirect_to = p.redirect_to;
  connection_id = p.connection_id;
  credential_id = "";
  challenge = "";
  rp_id = "";
  passkey_label = "";
  user_verification = "";
  key_label = p.key_label;
  key_fingerprint = p.key_fingerprint;
  has_resolve_sign = false;
  has_resolve_key = true;
  has_reject = true;
}

-- The part of `RequestSign` and `RequestKeyApproval` before the wait, for one notification channel.
unfoldable pub open_request :
    String → Actions → CreateParams → String → ℕ → Actions × Action × List Notice
unfolding create
open_request base_url s p new_id now =
    let (s', a, _) = create s p new_id now in
    (s', a, notify a ((base_url <> "/sign/") <> a.id) ∷ [])

-- What a request returns. The context's own error is `context_done`.
pub data Answer : Type 0 where
  signature : SignResponse → Answer
  approval : Answer
  failure : SignError → Answer
  context_done : Answer

-- The messages that have arrived for the action on its two channels, in order.
unfoldable pub arrived : String → List Effect → List Answer
arrived id [] = []
arrived id (created a ∷ es) = arrived id es
arrived id (resolves_sign i r ∷ es) =
    let rest = arrived id es in if i == id then signature r ∷ rest else rest
arrived id (resolves_key i ∷ es) =
    let rest = arrived id es in if i == id then approval ∷ rest else rest
arrived id (rejects i e ∷ es) =
    let rest = arrived id es in if i == id then failure e ∷ rest else rest
arrived id (resolved ev ∷ es) = arrived id es

-- The `select`: it may take a message that has arrived, or the end of the context.
pub data Selects (id : String) (es : List Effect) (ctx_done : Bool) : Answer → Type 0 where
  message : (a : Answer) (rest : List Answer) → arrived id es ≡ a ∷ rest → Selects id es ctx_done a
  done : ctx_done ≡ true → Selects id es ctx_done context_done

-- The notice that follows the wait; none when the context ended it.
unfoldable pub after_wait : Action → Answer → List Notice
after_wait a context_done = []
after_wait a (signature r) = notify_resolved a ∷ []
after_wait a approval = notify_resolved a ∷ []
after_wait a (failure e) = notify_resolved a ∷ []

unfoldable pub notify_all_resolved : List Action → List Notice
notify_all_resolved [] = []
notify_all_resolved (a ∷ as') = notify_resolved a ∷ notify_all_resolved as'

-- `Broker.CancelForConnection`, for one notification channel.
unfoldable pub cancel_connection :
    Actions → String → String → ℕ → Actions × List Action × List Effect × List Notice
unfolding cancel_for_connection notify_all_resolved
cancel_connection s c reason later =
    let (s', out, es) = cancel_for_connection s c reason later in
    (s', out, es, notify_all_resolved out)
