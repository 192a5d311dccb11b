-- ===== src/Sshx/HostKey/Connections.antt =====
-- A connection, from its first key exchange to the check before the session is handed out. An
-- approval takes the provisional key when it is asked for and pins it when it is answered; in
-- between anything may happen, also to the store.
use shell_watch.Base.{
  ℕ, ◌≡◌, ◌⊎◌, ◌≢◌, Bool, true, false, Option, none, some, String, List, [], ◌∷◌, if◌then◌else◌,
  string_eq,
}
use shell_watch.Approval.{HostKeyInfo}
use shell_watch.Sshx.Pins.{bytes_eq}
use shell_watch.Sshx.HostKey.{
  ObservedHostKey, PinnedHostKey, PinRequest, unseen, known, HostKeyState, HostKeyMismatchError,
  is_match, host_key_callback, with_host_key_context, PinOutcome, pin_written, request_of,
  pin_after_approval,
}

pub record Connection : Type 0 where
  pub state : HostKeyState
  -- The keys that the approvals not yet answered must pin.
  pub waiting : List (Option ObservedHostKey)
  -- The pins that the store accepted from this connection.
  pub accepted : List PinRequest
  pub refused : Bool

-- A key exchange; an approval is asked for; the first of those that wait is answered, with a store
-- that accepts some requests.
pub data Step : Type 0 where
  exchanges : ObservedHostKey → Step
  asks : Step
  answers : (PinRequest → Bool) → String → String → Step

abbrev pub after_context : Connection → Option (HostKeyInfo × Option ObservedHostKey) → Connection
after_context c none = record c { waiting = none ∷ c.waiting }
after_context c (some (_, k)) = record c { waiting = k ∷ c.waiting }

abbrev log_of : PinRequest → PinOutcome → List PinRequest → List PinRequest
log_of r pin_written rs = r ∷ rs
log_of r _ rs = rs

abbrev pub answer :
    Connection
    → String
    → (PinRequest → Bool)
    → String
    → String
    → List (Option ObservedHostKey)
    → Connection
answer c id pin by action [] = c
answer c id pin by action (none ∷ ks) = record c { waiting = ks }
answer c id pin by action (some k ∷ ks) =
    let (state, r) = pin_after_approval pin c.state id (some k) by action in
    record c {
      state = state;
      waiting = ks;
      accepted = log_of (request_of c.state id k by action) r c.accepted;
    }

abbrev pub is_refusal : Option HostKeyMismatchError → Bool
is_refusal none = false
is_refusal (some _) = true

-- After a refusal the handshake is over.
unfoldable pub perform : String → Option PinnedHostKey → Connection → Step → Connection
perform id pin c (exchanges key) =
    if c.refused
    then c
    else (let (state, e) = host_key_callback id pin c.state key in
        record c { state = state; refused = is_refusal e })
perform id pin c asks = after_context c (with_host_key_context c.state)
perform id pin c (answers store by action) = answer c id store by action c.waiting

unfoldable pub run : String → Option PinnedHostKey → Connection → List Step → Connection
run id pin c [] = c
run id pin c (s ∷ ss) = run id pin (perform id pin c s) ss

-- One of the accepted requests pins the observed key for the endpoint at the dialed address.
abbrev pub IsAccepted : String → HostKeyState → List PinRequest → Type 0
IsAccepted id s [] = ⊥
IsAccepted id s (r ∷ rs) =
    ((r.endpoint_id ≡ id)
      × (r.observed ≡ s.observed)
      × (r.host ≡ s.dial_host)
      × (r.port ≡ s.dial_port))
    ⊎ IsAccepted id s rs

abbrev pub IsVerified : Option PinnedHostKey → ObservedHostKey → Type 0
IsVerified none k = ⊥
IsVerified (some p) k = is_match p k ≡ true

-- The keys that wait to be pinned are the one that was observed.
abbrev pub AllObserved : HostKeyState → List (Option ObservedHostKey) → Type 0
AllObserved s [] = Unit
AllObserved s (none ∷ ks) = AllObserved s ks
AllObserved s (some k ∷ ks) = (s.status ≢ unseen) × (k ≡ s.observed) × AllObserved s ks

pub record IsSound (id : String) (pin : Option PinnedHostKey) (c : Connection) : Type 0 where
  pub verified : c.state.status ≡ known → IsVerified pin c.state.observed
  pub provisional : AllObserved c.state c.waiting
  pub approved :
      c.state.pinned ≡ true → (c.state.status ≢ unseen) × IsAccepted id c.state c.accepted

abbrev pub start : String → ℕ → Connection
start host port = record {
  state = record {
    status = unseen;
    observed = record { type_ = ""; key = []; fingerprint = "" };
    pinned = false;
    dial_host = host;
    dial_port = port;
  };
  waiting = [];
  accepted = [];
  refused = false;
}
