-- ===== src/Webauthn/Challenge.antt =====
-- internal/webauthn/challenge.go: challenges that are bound to a purpose, on the ephemeral store.
pub mod Purposes
use mathlib.Core.Option
use shell_watch.Base.{
  ℕ, Bool, true, false, not, Option, none, some, String, List, ◌==◌, if◌then◌else◌, string_eq,
}
use shell_watch.Ephemeral.{Store, new, put, consume}

abbrev pub purpose_login : String
purpose_login = "auth:login"

abbrev pub purpose_self_register : String
purpose_self_register = "auth:register"

abbrev pub purpose_register_in_account : String
purpose_register_in_account = "register:in_account"

abbrev pub purpose_register_invite : String
purpose_register_invite = "register:invite"

-- Five minutes in nanoseconds.
abbrev pub challenge_ttl : ℕ
challenge_ttl = 300000000000

abbrev pub challenge_cap : ℕ
challenge_cap = 10000

pub record ChallengeEntry : Type 0 where
  pub challenge : String
  pub purpose : String

abbrev pub ChallengeStore : Type 0
ChallengeStore = Store String ChallengeEntry

unfoldable pub new_challenge_store : ChallengeStore
new_challenge_store = new challenge_ttl challenge_cap

unfoldable pub store_challenge : ChallengeStore → String → String → String → ℕ → ChallengeStore
store_challenge c challenge_id challenge purpose now =
    put c challenge_id (record { challenge = challenge; purpose = purpose }) now

-- The check of `Consume` on what the store gave.
abbrev pub checked : Option ChallengeEntry → String → String
checked none expected = ""
checked (some e) expected = if not (e.purpose == expected) then "" else e.challenge

unfoldable pub consume_challenge : ChallengeStore → String → String → ℕ → ChallengeStore × String
consume_challenge c challenge_id expected now =
    let (c', e) = consume c challenge_id now in (c', checked e expected)
