-- ===== src/Webauthn/Examples.antt =====
-- Tests of the single-use secrets, and instances of their theorems.
use mathlib.Core.Logic.{◌↔◌}
use shell_watch.Base.{
  ℕ, ◌+◌, ◌≤◌, ◌<◌, ◌≡◌, refl, ◌≢◌, true, false, ◌&&◌, some, String, List, [], ◌∷◌, ltb, ◌==◌,
  if◌then◌else◌, lookup, NodupKeys, string_eq, nat_eq,
}
use shell_watch.Ephemeral.{new}
use shell_watch.Ephemeral.Runs.{new-IsValid}
use shell_watch.Webauthn.Challenge.{
  ChallengeStore, store_challenge, consume_challenge, purpose_login, purpose_self_register,
}
use shell_watch.Webauthn.Challenge.Purposes.{consume_challenge-store, step_up_purposes_apart}
use shell_watch.Webauthn.StepUp.{
  StepUpStore, is_step_up_action, action_to_purpose, mint, require_step_up, passed_on, answered,
}
use shell_watch.Webauthn.StepUp.Gate.{
  Step, mints, requests, cleans, passes, require_step_up-mint, token_passes_once,
}
use shell_watch.Webauthn.Invite.{InviteSlot, InviteStore}
use shell_watch.Webauthn.Invite.Redeem.{
  Step as InviteCall, creates, finds_token, redeems, redeemed, created, holds, run,
  redeemed-created,
}

known_action : is_step_up_action "pin_host_key" ≡ true
unfolding is_step_up_action lookup string_eq
known_action = refl

unknown_action : is_step_up_action "delete_everything" ≡ false
unfolding is_step_up_action lookup string_eq
unknown_action = refl

abbrev challenges : ChallengeStore
challenges = record { m = []; order = []; ttl = 300000000000; cap = 10000 }

consume_challenge-store_example :
    let (c', r) =
      consume_challenge
        (store_challenge challenges "c1" "Zm9v" "auth:login" 5)
        "c1"
        "auth:register"
        6 in
    (r ≡ (if (purpose_login == purpose_self_register) && ltb 6 300000000005 then "Zm9v" else ""))
    × ((consume_challenge c' "c1" "auth:login" 7).1 ≡ "")
consume_challenge-store_example =
    consume_challenge-store challenges "c1" "Zm9v" "auth:login" "auth:register" "auth:login" 5 6 7

revoke_found : lookup "revoke_passkey" action_to_purpose ≡ some "stepup:revoke_passkey"
unfolding lookup string_eq
revoke_found = refl

pin_found : lookup "pin_host_key" action_to_purpose ≡ some "stepup:pin_host_key"
unfolding lookup string_eq
pin_found = refl

abbrev revoke : String
revoke = "revoke_passkey"

abbrev pin : String
pin = "pin_host_key"

abbrev acc : String
acc = "acc"

abbrev secret : String
secret = "t1"

actions_differ : revoke ≢ pin
actions_differ = λ e. cc

step_up_purposes_apart_example :
    let (c', r) =
      consume_challenge
        (store_challenge challenges "c1" "Zm9v" "stepup:revoke_passkey" 5)
        "c1"
        "stepup:pin_host_key"
        6 in
    (r ≡ "") × ((consume_challenge c' "c1" "stepup:revoke_passkey" 6).1 ≡ "")
step_up_purposes_apart_example =
    step_up_purposes_apart challenges "c1" "Zm9v" "revoke_passkey" "pin_host_key"
      "stepup:revoke_passkey" "stepup:pin_host_key" 5 6 revoke_found pin_found actions_differ

abbrev tokens : StepUpStore
tokens = record { m = []; order = []; ttl = 90000000000; cap = 0 }

token_not_empty : (secret == "") ≡ false
unfolding string_eq
token_not_empty = refl

require_step_up-mint_example :
    let (t, o) =
      require_step_up
        (mint tokens "t1" "acc" "pin_host_key" 5).0
        (some "acc")
        "t1"
        "pin_host_key"
        6 in
    ((o ≡ passed_on) ↔ ((acc ≡ acc) × (pin ≡ pin) × (6 < 90000000005)))
    × ((require_step_up t (some "acc") "t1" "pin_host_key" 7).1
        ≡ answered 401 "Step-up authentication required" "stepup_required")
require_step_up-mint_example =
    require_step_up-mint tokens "t1" "acc" "pin_host_key" "acc" "pin_host_key" "acc" "pin_host_key"
      5 6 7 token_not_empty

abbrev requests_of_two : List (ℕ × Step)
requests_of_two =
    (1, mints "t2" "acc" "pin_host_key")
    ∷ (2, requests (some "acc") "t1" "pin_host_key")
    ∷ (3, requests (some "acc2") "t1" "pin_host_key")
    ∷ (4, cleans)
    ∷ []

token_passes_once_example : passes "t1" (new 90000000000 0) requests_of_two ≤ 1
token_passes_once_example =
    token_passes_once "t1" (new 90000000000 0) requests_of_two (new-IsValid 90000000000 0)
      (unfold string_eq in refl, tt)

abbrev slot : InviteSlot
slot = record { account_id = "acc"; token = "i1"; expires_at = 100; created_at = 0 }

abbrev slots : InviteStore
slots = ("acc", slot) ∷ []

slots-NodupKeys : NodupKeys slots
unfolding lookup
slots-NodupKeys = (refl, tt)

abbrev invites : List (ℕ × InviteCall)
invites =
    (1, redeems "acc" "i1")
    ∷ (2, redeems "acc" "i1")
    ∷ (3, creates "acc" "i2")
    ∷ (4, finds_token "i1")
    ∷ []

redeemed-created_example :
    redeemed "acc" "i1" slots invites + holds (lookup "acc" (run slots invites)) "i1"
    ≤ created "acc" "i1" invites + holds (lookup "acc" slots) "i1"
redeemed-created_example = redeemed-created "acc" "i1" slots invites slots-NodupKeys
