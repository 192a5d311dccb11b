-- ===== src/Sshx/Examples.antt =====
-- Tests of the host keys, and instances of their theorems.
use shell_watch.Base.{
  ◌≡◌, refl, ◌≢◌, ◌⊎◌, true, false, none, some, String, List, [], ◌∷◌, lookup, insert, string_eq,
  nat_eq,
}
use shell_watch.Sshx.Pins.{
  bytes_eq, HostKeyRecord, EndpointRow, Endpoints, PinHostKeyParams, pinned, other_key_pinned,
  has_fingerprint, pin_host_key, update_endpoint, get_host_key, pin_host_key-pins,
  update_endpoint-forgets,
}
use shell_watch.Sshx.HostKey.{
  ObservedHostKey, unseen, observe, host_key_callback, with_host_key_context, may_establish,
  mark_pinned, pin_after_approval, HostKeyStatus-discrete,
}
use shell_watch.Sshx.HostKey.FailClosed.{run_fails_closed}
use shell_watch.Sshx.HostKey.Connections.{
  Step, exchanges, asks, answers, run, start, perform, IsAccepted, IsVerified,
}

abbrev row : EndpointRow
row = record { account_id = "acc"; host = "h"; port = 22; pin = none; pinned_by = "" }

abbrev endpoints : Endpoints
endpoints = ("e1", row) ∷ []

abbrev params : PinHostKeyParams
params = record {
  id = "e1";
  host = "h";
  port = 22;
  record_ = record { type_ = "ssh-ed25519"; key = 1 ∷ 2 ∷ []; fingerprint = "SHA256:a" };
  pinned_by = "cred";
}

-- A second, different pin is refused.
pinned_twice :
    (pin_host_key
      (pin_host_key endpoints params).0
      (record params { record_ = record { type_ = ""; key = []; fingerprint = "SHA256:b" } })).1
    ≡ other_key_pinned
unfolding pin_host_key lookup insert string_eq nat_eq
pinned_twice = refl

pin_host_key-pins_example :
    let (eps', r) = pin_host_key endpoints params in
    (r ≡ pinned
      → (row : EndpointRow) × (lookup "e1" eps' ≡ some row)
        × (row.host ≡ params.host)
        × (row.port ≡ 22)
        × (has_fingerprint row.pin "SHA256:a" ≡ true))
    × (r ≢ pinned → eps' ≡ endpoints)
    × ((id : String) (k : HostKeyRecord)
        → get_host_key endpoints id ≡ some k
        → get_host_key eps' id ≡ some k)
pin_host_key-pins_example = pin_host_key-pins endpoints params

abbrev trusted : EndpointRow
trusted = record row { pin = some params.record_ }

abbrev pinned_endpoints : Endpoints
pinned_endpoints = ("e1", trusted) ∷ []

trusted_found : lookup "e1" pinned_endpoints ≡ some trusted
unfolding lookup string_eq
trusted_found = refl

updated : (update_endpoint pinned_endpoints "e1" "acc" "h" 22).1 ≡ true
unfolding update_endpoint lookup string_eq nat_eq
updated = refl

updated_found : lookup "e1" (update_endpoint pinned_endpoints "e1" "acc" "h" 22).0 ≡ some trusted
unfolding update_endpoint lookup insert string_eq nat_eq
updated_found = refl

update_endpoint-forgets_example :
    (trusted.pin ≡ some params.record_)
    × (trusted.host ≡ trusted.host)
    × (trusted.port ≡ trusted.port)
    × (trusted.host ≡ params.host)
    × (trusted.port ≡ params.port)
update_endpoint-forgets_example =
    update_endpoint-forgets pinned_endpoints "e1" "acc" "h" 22 trusted trusted params.record_
      updated trusted_found updated_found refl

abbrev server_key : ObservedHostKey
server_key = record { type_ = "ssh-ed25519"; key = 1 ∷ 2 ∷ []; fingerprint = "SHA256:a" }

abbrev first_contact : List Step
first_contact = exchanges server_key ∷ asks ∷ answers (λ _. true) "cred" "act" ∷ []

established : may_establish (run "e1" none (start "h" 22) first_contact).state ≡ true
unfolding run perform host_key_callback observe with_host_key_context pin_after_approval mark_pinned
    may_establish HostKeyStatus-discrete
established = refl

unapproved :
    may_establish (run "e1" none (start "h" 22) (exchanges server_key ∷ asks ∷ [])).state ≡ false
unfolding run perform host_key_callback observe with_host_key_context may_establish
    HostKeyStatus-discrete
unapproved = refl

key_was_seen : (run "e1" none (start "h" 22) first_contact).state.status ≢ unseen
unfolding run perform host_key_callback observe with_host_key_context pin_after_approval mark_pinned
    HostKeyStatus-discrete
key_was_seen = λ e. cc

run_fails_closed_example :
    let c = run "e1" none (start "h" 22) first_contact in
    IsVerified none c.state.observed ⊎ IsAccepted "e1" c.state c.accepted
run_fails_closed_example = run_fails_closed "e1" "h" 22 none first_contact established key_was_seen
