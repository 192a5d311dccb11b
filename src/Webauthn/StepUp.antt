-- ===== src/Webauthn/StepUp.antt =====
-- internal/webauthn/stepup.go: step-up tokens, bound to an account and an action, and the gate that
-- spends one for each request.
pub mod Gate
use shell_watch.Base.{
  ℕ, ◌+◌, Bool, true, false, not, Option, none, some, String, List, [], ◌∷◌, ◌==◌, if◌then◌else◌,
  Dict, lookup, is_some, string_eq,
}
use shell_watch.Ephemeral.{Store, new, put, consume}

abbrev pub action_to_purpose : Dict String String
action_to_purpose =
    ("register_passkey", "stepup:register_passkey")
    ∷ ("revoke_passkey", "stepup:revoke_passkey")
    ∷ ("confirm_passkey", "stepup:confirm_passkey")
    ∷ ("revoke_session", "stepup:revoke_session")
    ∷ ("revoke_all_sessions", "stepup:revoke_all_sessions")
    ∷ ("reset_host_key", "stepup:reset_host_key")
    ∷ ("pin_host_key", "stepup:pin_host_key")
    ∷ []

unfoldable pub is_step_up_action : String → Bool
is_step_up_action s = is_some (lookup s action_to_purpose)

-- Ninety seconds in nanoseconds.
abbrev pub step_up_ttl : ℕ
step_up_ttl = 90000000000

pub record StepUpEntry : Type 0 where
  pub account_id : String
  pub action : String
  pub expires_at : ℕ

abbrev pub StepUpStore : Type 0
StepUpStore = Store String StepUpEntry

unfoldable pub new_step_up_store : StepUpStore
new_step_up_store = new step_up_ttl 0

unfoldable pub mint : StepUpStore → String → String → String → ℕ → StepUpStore × ℕ
mint s token account_id action now =
    let exp = now + step_up_ttl in
    (put s token (record { account_id = account_id; action = action; expires_at = exp }) now, exp)

pub data ConsumeReason : Type 0 where
  ok missing expired wrong_action wrong_account : ConsumeReason

-- The checks of `Consume` on what the store gave.
abbrev pub check_entry : Option StepUpEntry → String → String → ConsumeReason
check_entry none account_id action = missing
check_entry (some e) account_id action =
    if not (e.account_id == account_id)
    then wrong_account
    else if not (e.action == action)
    then wrong_action
    else ok

unfoldable pub consume_token :
    StepUpStore → String → String → String → ℕ → StepUpStore × ConsumeReason
consume_token s token account_id action now =
    if token == ""
    then (s, missing)
    else (let (s', e) = consume s token now in (s', check_entry e account_id action))

abbrev pub step_up_error_code : ConsumeReason → String
step_up_error_code ok = ""
step_up_error_code missing = "stepup_required"
step_up_error_code expired = "stepup_expired"
step_up_error_code wrong_action = "stepup_wrong_action"
step_up_error_code wrong_account = "stepup_wrong_account"

abbrev pub step_up_error_message : ConsumeReason → String
step_up_error_message ok = ""
step_up_error_message missing = "Step-up authentication required"
step_up_error_message expired = "Step-up token expired"
step_up_error_message wrong_action = "Step-up token not valid for this action"
step_up_error_message wrong_account = "Step-up token not valid for this account"

-- What the gate does with a request: an answer with a status, a message and a code, or the handler.
pub data Outcome : Type 0 where
  answered : ℕ → String → String → Outcome
  passed_on : Outcome

abbrev pub outcome_of : ConsumeReason → Outcome
outcome_of ok = passed_on
outcome_of r = answered 401 (step_up_error_message r) (step_up_error_code r)

-- The account is that of the request's principal, if it has one.
unfoldable pub require_step_up :
    StepUpStore → Option String → String → String → ℕ → StepUpStore × Outcome
require_step_up s none token action now = (s, answered 401 "unauthenticated" "")
require_step_up s (some account_id) token action now =
    let (s', r) = consume_token s token account_id action now in (s', outcome_of r)
