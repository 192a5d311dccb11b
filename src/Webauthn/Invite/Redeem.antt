-- ===== src/Webauthn/Invite/Redeem.antt =====
-- Redeeming an invite.
use shell_watch.Base.{
  ℕ, ◌+◌, ◌≤◌, ◌≡◌, refl, ◌&&◌, Option, none, some, String, List, [], ◌∷◌, arith, ◌==◌, ==→≡,
  if◌then◌else◌, lookup, lookup-insert, lookup-erase, NodupKeys, insert-NodupKeys, erase-NodupKeys,
  string_eq, Bool-cases, Option-cases, inl, inr,
}
use shell_watch.Webauthn.Invite.{
  InviteSlot, InviteStore, create_invite, find_for_account, find_by_token, consume_if_token_matches,
}
use shell_watch.Webauthn.Invite.Lookup.{find_by_token-Keeps}

-- The calls of the store.
pub data Step : Type 0 where
  creates : String → String → Step
  finds_account finds_token : String → Step
  redeems : String → String → Step

unfoldable pub perform : InviteStore → ℕ → Step → InviteStore
perform s now (creates acc token) = (create_invite s acc token now).0
perform s now (finds_account acc) = (find_for_account s acc now).0
perform s now (finds_token token) = (find_by_token s token now).0
perform s now (redeems acc token) = (consume_if_token_matches s acc token).0

unfoldable pub run : InviteStore → List (ℕ × Step) → InviteStore
run s [] = s
run s ((now, c) ∷ cs) = run (perform s now c) cs

-- How often the account's invite `token` is created, and how often redeemed.
abbrev pub created : String → String → List (ℕ × Step) → ℕ
created acc token [] = 0
created acc token ((now, creates a t) ∷ cs) =
    (if a == acc && t == token then 1 else 0) + created acc token cs
created acc token ((now, _) ∷ cs) = created acc token cs

unfoldable pub redeemed : String → String → InviteStore → List (ℕ × Step) → ℕ
redeemed acc token s [] = 0
redeemed acc token s ((now, redeems a t) ∷ cs) =
    (if a == acc && (t == token && (consume_if_token_matches s a t).1) then 1 else 0)
    + redeemed acc token (perform s now (redeems a t)) cs
redeemed acc token s ((now, c) ∷ cs) = redeemed acc token (perform s now c) cs

abbrev pub holds : Option InviteSlot → String → ℕ
holds none token = 0
holds (some slot) token = if slot.token == token then 1 else 0

find_by_token-NodupKeys :
    (s : InviteStore) (token : String) (now : ℕ)
    → NodupKeys s
    → NodupKeys (find_by_token s token now).0
unfolding find_by_token
find_by_token-NodupKeys [] token now u = tt
find_by_token-NodupKeys ((a, slot) ∷ s) token now u =
    let rest = find_by_token-NodupKeys s token now u.1 in
    let absent : lookup a (find_by_token s token now).0 ≡ none =
      elim (Option-cases (lookup a (find_by_token s token now).0)) [
        | inl e ↦ e
        | inr (x, e) ↦ absurd (ground (arith, (find_by_token-Keeps s token now u.1 a).1 x e, u.0))
      ] in
    ground (arith, rest, absent)

find_for_account-NodupKeys :
    (s : InviteStore) (acc : String) (now : ℕ)
    → NodupKeys s
    → NodupKeys (find_for_account s acc now).0
unfolding find_for_account
find_for_account-NodupKeys s acc now u = ground (arith, erase-NodupKeys acc s u)

consume_if_token_matches-NodupKeys :
    (s : InviteStore) (acc token : String)
    → NodupKeys s
    → NodupKeys (consume_if_token_matches s acc token).0
unfolding consume_if_token_matches
consume_if_token_matches-NodupKeys s acc token u = ground (arith, erase-NodupKeys acc s u)

perform-NodupKeys :
    (s : InviteStore) (now : ℕ) (c : Step) → NodupKeys s → NodupKeys (perform s now c)
unfolding perform create_invite
perform-NodupKeys s now (creates acc token) u = insert-NodupKeys acc _ s u
perform-NodupKeys s now (finds_account acc) u = find_for_account-NodupKeys s acc now u
perform-NodupKeys s now (finds_token token) u = find_by_token-NodupKeys s token now u
perform-NodupKeys s now (redeems acc token) u = consume_if_token_matches-NodupKeys s acc token u

-- No slot of an account can hold the token that did not, where no slot is new.
holds_le :
    (o o' : Option InviteSlot) (token : String)
    → ((slot : InviteSlot) → o' ≡ some slot → o ≡ some slot)
    → holds o' token ≤ holds o token
holds_le o none token old = omega arith
holds_le o (some x) token old = rw (old x refl) (omega arith)

find_for_account-holds :
    (s : InviteStore) (a acc token : String) (now : ℕ)
    → holds (lookup acc (find_for_account s a now).0) token ≤ holds (lookup acc s) token
unfolding find_for_account
find_for_account-holds s a acc token now = ground (arith, lookup-erase acc a s)

redeem-holds :
    (s : InviteStore) (a t acc token : String)
    → (if a == acc && (t == token && (consume_if_token_matches s a t).1) then 1 else 0)
        + holds (lookup acc (consume_if_token_matches s a t).0) token
      ≤ holds (lookup acc s) token
unfolding consume_if_token_matches
redeem-holds s a t acc token = ground (arith, lookup-erase acc a s, ==→≡ a acc, ==→≡ t token)

create_invite-holds :
    (s : InviteStore) (a t acc token : String) (now : ℕ)
    → holds (lookup acc (create_invite s a t now).0) token
      ≤ (if a == acc && t == token then 1 else 0) + holds (lookup acc s) token
unfolding create_invite
create_invite-holds s a t acc token now = elim (Bool-cases (a == acc)) [
  | inl same ↦ rw (lookup-insert acc a _ s, same) (ground arith)
  | inr other ↦ rw (lookup-insert acc a _ s, other) (omega arith)
]

-- In a map, however creations, lookups and redemptions follow each other, an account's invite token is redeemed
-- at most as often as it is created, counting the slot that holds it at the start, and once less
-- for as long as a slot holds it at the end.
pub redeemed-created :
    (acc token : String) (s : InviteStore) (cs : List (ℕ × Step))
    → NodupKeys s
    → redeemed acc token s cs + holds (lookup acc (run s cs)) token
      ≤ created acc token cs + holds (lookup acc s) token
unfolding redeemed run perform
redeemed-created acc token s [] u = omega arith
redeemed-created acc token s ((now, creates a t) ∷ cs) u = omega (
  arith,
  create_invite-holds s a t acc token now,
  redeemed-created acc token (create_invite s a t now).0 cs
      (perform-NodupKeys s now (creates a t) u),
)
redeemed-created acc token s ((now, finds_account a) ∷ cs) u = omega (
  arith,
  find_for_account-holds s a acc token now,
  redeemed-created acc token (find_for_account s a now).0 cs (find_for_account-NodupKeys s a now u),
)
redeemed-created acc token s ((now, finds_token t) ∷ cs) u = omega (
  arith,
  holds_le (lookup acc s) (lookup acc (find_by_token s t now).0) token
      (find_by_token-Keeps s t now u acc).1,
  redeemed-created acc token (find_by_token s t now).0 cs (find_by_token-NodupKeys s t now u),
)
redeemed-created acc token s ((now, redeems a t) ∷ cs) u = omega (
  arith,
  redeem-holds s a t acc token,
  redeemed-created acc token (consume_if_token_matches s a t).0 cs
      (consume_if_token_matches-NodupKeys s a t u),
)
