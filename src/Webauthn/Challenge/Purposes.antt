-- ===== src/Webauthn/Challenge/Purposes.antt =====
-- Which challenge a ceremony gets: one that was minted for the same purpose, once.
use shell_watch.Base.{
  ℕ, ◌+◌, ◌≡◌, refl, ◌≢◌, sym, ◌∙◌, true, false, ◌&&◌, some, String, List, [], ◌∷◌, arith, ltb,
  ◌==◌, ==-refl, ==→≡, ≢→==, if◌then◌else◌, Dict, lookup, contains, IsDistinct, string_eq,
  Bool-cases, inl, inr, nat_eq,
}
use shell_watch.Ephemeral.{put, consume}
use shell_watch.Ephemeral.Live.{put-found, consume-gone}
use shell_watch.Webauthn.Challenge.{ChallengeStore, store_challenge, consume_challenge}
use shell_watch.Webauthn.StepUp.{action_to_purpose}

-- A consume of a challenge just stored gives it exactly if the purpose is the one it was stored under
-- and its lifetime has not passed, and the empty string otherwise; either way a second consume, for
-- any purpose and at any time, gives the empty string.
pub consume_challenge-store :
    (c : ChallengeStore) (id challenge purpose expected again : String) (now at_time later : ℕ)
    → let (c', r) =
        consume_challenge (store_challenge c id challenge purpose now) id expected at_time in
      (r ≡ (if (purpose == expected) && ltb at_time (now + c.ttl) then challenge else ""))
      × ((consume_challenge c' id again later).1 ≡ "")
unfolding consume_challenge store_challenge consume
consume_challenge-store c id challenge purpose expected again now at_time later = (
  rw (put-found c id (record { challenge = challenge; purpose = purpose }) now) (ground arith),
  rw (consume-gone (put c id (record { challenge = challenge; purpose = purpose }) now) id at_time)
      refl,
)

-- The values of a map that has each value once are those of one key each.
abbrev values : Dict String String → List String
values [] = []
values ((_, v) ∷ d) = v ∷ values d

lookup-values :
    (d : Dict String String) (k v : String) → lookup k d ≡ some v → contains (values d) v ≡ true
unfolding lookup
lookup-values [] k v h = cc
lookup-values ((j, w) ∷ d) k v h = elim (Bool-cases (j == k)) [
  | inl e ↦ ground (arith, ==-refl v)
  | inr e ↦ ground (arith, lookup-values d k v)
]

lookup-injective :
    (d : Dict String String) (j k v : String)
    → IsDistinct (values d)
    → lookup j d ≡ some v
    → lookup k d ≡ some v
    → j ≡ k
unfolding lookup
lookup-injective [] j k v u h l = cc
lookup-injective ((i, w) ∷ d) j k v u h l = elim (Bool-cases (i == j)) [
  | inl a ↦ elim (Bool-cases (i == k)) [
    | inl b ↦ sym (==→≡ i j a) ∙ ==→≡ i k b
    | inr b ↦ absurd (ground (arith, lookup-values d k v))
  ]
  | inr a ↦ elim (Bool-cases (i == k)) [
    | inl b ↦ absurd (ground (arith, lookup-values d j v))
    | inr b ↦ lookup-injective d j k v u.1 (ground arith) (ground arith)
  ]
]

purposes-IsDistinct : IsDistinct (values action_to_purpose)
unfolding string_eq
purposes-IsDistinct = (refl, (refl, (refl, (refl, (refl, (refl, (refl, tt)))))))

-- A challenge minted for one step-up action is refused, and spent, when it is presented for another.
pub step_up_purposes_apart :
    (c : ChallengeStore) (id challenge action other p q : String) (now at_time : ℕ)
    → lookup action action_to_purpose ≡ some p
    → lookup other action_to_purpose ≡ some q
    → action ≢ other
    → let (c', r) = consume_challenge (store_challenge c id challenge p now) id q at_time in
      (r ≡ "") × ((consume_challenge c' id p at_time).1 ≡ "")
step_up_purposes_apart c id challenge action other p q now at_time h l n =
    let (r, spent) = consume_challenge-store c id challenge p q p now at_time at_time in
    let apart : (p == q) ≡ false =
      ≢→== p q (λ e.
        n (lookup-injective action_to_purpose action other p purposes-IsDistinct h (rw e l))) in
    (r ∙ rw apart refl, spent)
