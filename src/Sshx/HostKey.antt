-- ===== src/Sshx/HostKey.antt =====
-- internal/sshx/hostkey.go, and what its users do with the state of a connection: the annotation of
-- an approval and the pin that follows it (webauthn_signer.go, which filekey_signer.go calls too),
-- and the check before a session is handed out (transport.go). Keys are bytes. The SSH library calls
-- `host_key_callback` at every key exchange, and the pin store of the connection is the argument `pin`
-- of `pin_after_approval`, which says whether the store accepted the request.
pub mod Connections
pub mod FailClosed
use mathlib.Core.Logic.{ite}
use shell_watch.Base.{
  ℕ, Bool, true, false, not, ◌&&◌, Option, none, some, String, List, [], ◌∷◌, ltb, ◌==◌,
  if◌then◌else◌, length, string_eq,
}
use shell_watch.Approval.{HostKeyInfo}
use shell_watch.Sshx.Pins.{bytes_eq}

pub record ObservedHostKey : Type 0 where
  pub type_ : String
  pub key : List ℕ
  pub fingerprint : String

-- A fingerprint-only pin has no key bytes.
pub record PinnedHostKey : Type 0 where
  pub type_ : String
  pub key : List ℕ
  pub fingerprint : String

pub record PinRequest : Type 0 where
  pub endpoint_id : String
  pub host : String
  pub port : ℕ
  pub observed : ObservedHostKey
  pub pinned_by : String
  pub action_id : String

pub data HostKeyStatus : Type 0 where
  unseen new known : HostKeyStatus

unfoldable pub HostKeyStatus-discrete : Discrete HostKeyStatus
HostKeyStatus-discrete = hlevel

pub record HostKeyState : Type 0 where
  pub status : HostKeyStatus
  pub observed : ObservedHostKey
  pub pinned : Bool
  pub dial_host : String
  pub dial_port : ℕ

abbrev pub is_status : HostKeyStatus → HostKeyStatus → Bool
is_status s t = ite (HostKeyStatus-discrete s t) true false

unfoldable pub observe : HostKeyState → HostKeyStatus → ObservedHostKey → HostKeyState
observe s status key = record s { status = status; observed = key }

unfoldable pub set_dial_address : HostKeyState → String → ℕ → HostKeyState
set_dial_address s host port = record s { dial_host = host; dial_port = port }

unfoldable pub mark_pinned : HostKeyState → HostKeyState
mark_pinned s = record s { pinned = true }

pub record HostKeyMismatchError : Type 0 where
  pub endpoint_id : String
  pub observed_key_type : String
  pub observed_fingerprint : String
  pub pinned_fingerprint : String

abbrev pub mismatch : String → ObservedHostKey → String → HostKeyMismatchError
mismatch endpoint_id observed pinned_fingerprint = record {
  endpoint_id = endpoint_id;
  observed_key_type = observed.type_;
  observed_fingerprint = observed.fingerprint;
  pinned_fingerprint = pinned_fingerprint;
}

abbrev pub has_key : List ℕ → Bool
has_key key = ltb 0 (length key)

-- `match`: the key where the pin has one, and the fingerprint where it has not.
abbrev pub is_match : PinnedHostKey → ObservedHostKey → Bool
is_match pin observed =
    if has_key pin.key then pin.key == observed.key else pin.fingerprint == observed.fingerprint

unfoldable pub host_key_callback :
    String
    → Option PinnedHostKey
    → HostKeyState
    → ObservedHostKey
    → HostKeyState × Option HostKeyMismatchError
host_key_callback endpoint_id pin state observed =
    if not (is_status state.status unseen)
    then (if not (state.observed.key == observed.key)
        then (state, some (mismatch endpoint_id observed state.observed.fingerprint))
        else (state, none))
    else elim pin [
      | none ↦ (observe state new observed, none)
      | some p ↦
          if not (is_match p observed)
          then (state, some (mismatch endpoint_id observed p.fingerprint))
          else (observe state known observed, none)
    ]

abbrev pub host_key_info : HostKeyState → String → HostKeyInfo
host_key_info state status = record {
  key_type = state.observed.type_;
  fingerprint = state.observed.fingerprint;
  status = status;
}

-- `withHostKeyContext` for a connection that was dialed: what the approval shows of the host key, and
-- the key that it must also pin.
unfoldable pub with_host_key_context : HostKeyState → Option (HostKeyInfo × Option ObservedHostKey)
with_host_key_context state =
    if is_status state.status unseen
    then none
    else if is_status state.status new && not state.pinned
    then some (host_key_info state "new", some state.observed)
    else some (host_key_info state "known", none)

pub data PinOutcome : Type 0 where
  nothing_to_pin pin_written pin_failed : PinOutcome

abbrev pub request_of : HostKeyState → String → ObservedHostKey → String → String → PinRequest
request_of state endpoint_id provisional pinned_by action_id = record {
  endpoint_id = endpoint_id;
  host = state.dial_host;
  port = state.dial_port;
  observed = provisional;
  pinned_by = pinned_by;
  action_id = action_id;
}

-- `pinAfterApproval` with the state of the connection and a store.
unfoldable pub pin_after_approval :
    (PinRequest → Bool)
    → HostKeyState
    → String
    → Option ObservedHostKey
    → String
    → String
    → HostKeyState × PinOutcome
pin_after_approval pin state endpoint_id none pinned_by action_id = (state, nothing_to_pin)
pin_after_approval pin state endpoint_id (some k) pinned_by action_id =
    if pin (request_of state endpoint_id k pinned_by action_id)
    then (mark_pinned state, pin_written)
    else (state, pin_failed)

-- The check of `Connect` after the handshake: the session is handed out.
unfoldable pub may_establish : HostKeyState → Bool
may_establish state = not (is_status state.status new && not state.pinned)
