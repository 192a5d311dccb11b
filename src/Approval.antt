-- ===== src/Approval.antt =====
-- internal/approval: the pending actions that a human decides, and the broker that waits for them.
-- This file has the data of store.go. Times are nanoseconds. The functions that an action carries
-- (`resolveSign`, `resolveKey`, `reject`) send on the one-place channels of the broker; here an
-- action says which of them it has, and a call of one is an entry of the list of effects. The
-- broadcast of an event to all subscribers is one effect.
pub mod History
pub mod Answers
pub mod Store
pub mod Claims
pub mod Once
pub mod Sweeps
pub mod Broker
pub mod Examples
use shell_watch.Base.{ℕ, Bool, Option, String, List}

-- `time.Second`
abbrev pub second : ℕ
second = 1000000000

-- ActionTTL and cleanupGrace
abbrev pub action_ttl : ℕ
action_ttl = 60000000000

abbrev pub cleanup_grace : ℕ
cleanup_grace = 120000000000

pub data ActionType : Type 0 where
  webauthn_sign key_approve : ActionType

unfoldable pub ActionType-discrete : Discrete ActionType
ActionType-discrete = hlevel

pub data Status : Type 0 where
  pending completed expired denied : Status

pub record HostKeyInfo : Type 0 where
  pub key_type : String
  pub fingerprint : String
  pub status : String

pub record Context : Type 0 where
  pub source : String
  pub endpoint_label : String
  pub endpoint_address : String
  pub session_id : String
  pub source_ip : String
  pub client_hostname : String
  pub client_os : String
  pub client_version : String
  pub host_key : Option HostKeyInfo
  pub trigger_kind : String
  pub mcp_reason : String
  pub mcp_client_name : String
  pub mcp_client_ver : String

-- What a caller supplies; the action has it too.
pub record CreateParams : Type 0 where
  pub account_id : String
  pub action_type : ActionType
  pub context : Context
  pub redirect_to : String
  pub connection_id : String
  pub credential_id : String
  pub challenge : String
  pub rp_id : String
  pub passkey_label : String
  pub user_verification : String
  pub key_label : String
  pub key_fingerprint : String
  pub has_resolve_sign : Bool
  pub has_resolve_key : Bool
  pub has_reject : Bool

pub record Action : Type 0 where
  pub id : String
  pub status : Status
  pub created_at : ℕ
  pub expires_at : ℕ
  pub params : CreateParams
  pub open params use *

pub data Outcome : Type 0 where
  approved denied expired cancelled : Outcome

-- ErrDenied, ErrExpired and ErrCancelled
pub data SignError : Type 0 where
  err_denied err_expired err_cancelled : SignError

-- signing.SignResponse: bytes are numbers.
pub record SignResponse : Type 0 where
  pub authenticator_data : List ℕ
  pub signature : List ℕ
  pub client_data_json : List ℕ
  pub action_id : String

pub record ResolvedEvent : Type 0 where
  pub action : Action
  pub outcome : Outcome
  pub resolved_at : ℕ
  pub cancel_reason : String

-- What the store does to the outside, in order.
pub data Effect : Type 0 where
  created : Action → Effect
  resolves_sign : String → SignResponse → Effect
  resolves_key : String → Effect
  rejects : String → SignError → Effect
  resolved : ResolvedEvent → Effect

-- `status` is `none` where Go's is empty.
pub record ClaimResult : Type 0 where
  pub won : Bool
  pub found : Bool
  pub status : Option Status
