-- ===== src/Webauthn/Invite.antt =====
-- internal/webauthn/invite.go: one passkey invite for each account. A mutex guards every method; the
-- walk of `FindByToken` over the map is in the order of the list, which is any order.
pub mod Lookup
pub mod Redeem
use shell_watch.Base.{
  ℕ, ◌+◌, Bool, true, false, not, ◌||◌, Option, none, some, String, List, [], ◌∷◌, ltb, ◌==◌,
  if◌then◌else◌, Dict, lookup, insert, erase, string_eq,
}

-- Five minutes in nanoseconds.
abbrev pub invite_ttl : ℕ
invite_ttl = 300000000000

pub record InviteSlot : Type 0 where
  pub account_id : String
  pub token : String
  pub expires_at : ℕ
  pub created_at : ℕ

abbrev pub InviteStore : Type 0
InviteStore = Dict String InviteSlot

abbrev pub new_invite_store : InviteStore
new_invite_store = []

unfoldable pub create_invite : InviteStore → String → String → ℕ → InviteStore × InviteSlot
create_invite s account_id token now =
    let slot : InviteSlot = record {
      account_id = account_id;
      token = token;
      created_at = now;
      expires_at = now + invite_ttl;
    } in
    (insert account_id slot s, slot)

unfoldable pub find_for_account : InviteStore → String → ℕ → InviteStore × Option InviteSlot
find_for_account s account_id now = elim (lookup account_id s) [
  | none ↦ (s, none)
  | some slot ↦ if ltb now slot.expires_at then (s, some slot) else (erase account_id s, none)
]

-- The loop: what is left of the map, and the slot that it returned.
unfoldable pub find_by_token : InviteStore → String → ℕ → InviteStore × Option InviteSlot
find_by_token [] token now = ([], none)
find_by_token ((acc, slot) ∷ s) token now =
    let (s', found) = find_by_token s token now in
    if not (ltb now slot.expires_at)
    then (s', found)
    else if slot.token == token
    then ((acc, slot) ∷ s, some slot)
    else ((acc, slot) ∷ s', found)

unfoldable pub consume_if_token_matches : InviteStore → String → String → InviteStore × Bool
consume_if_token_matches s account_id token = elim (lookup account_id s) [
  | none ↦ (s, false)
  | some slot ↦ if not (slot.token == token) then (s, false) else (erase account_id s, true)
]
