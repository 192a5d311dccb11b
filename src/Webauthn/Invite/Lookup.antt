-- ===== src/Webauthn/Invite/Lookup.antt =====
-- Looking an invite up by its token.
use shell_watch.Base.{
  ℕ, ◌≡◌, refl, sym, subst, ◌∙◌, true, false, ◌&&◌, Option, none, some, String, [], ◌∷◌, arith, ltb,
  ◌==◌, ==-refl, ==→≡, lookup, lookup-nil, lookup-cons, NodupKeys, string_eq, Bool-cases, inl, inr,
}
use shell_watch.Webauthn.Invite.{InviteSlot, InviteStore, find_by_token}

-- What a lookup leaves: every slot that is live, and no slot that was not there.
abbrev Keeps : ℕ → InviteStore → InviteStore → Type 0
Keeps now s s' =
    (acc : String)
    → ((slot : InviteSlot)
        → lookup acc s ≡ some slot
        → ltb now slot.expires_at ≡ true
        → lookup acc s' ≡ some slot)
      × ((slot : InviteSlot) → lookup acc s' ≡ some slot → lookup acc s ≡ some slot)

pub find_by_token-Keeps :
    (s : InviteStore) (token : String) (now : ℕ)
    → NodupKeys s
    → Keeps now s (find_by_token s token now).0
unfolding find_by_token
find_by_token-Keeps [] token now u acc = (λ x h l. h, λ x h. h)
find_by_token-Keeps ((a, slot) ∷ s) token now u acc =
    let (keeps, old) = find_by_token-Keeps s token now u.1 acc in
    elim (Bool-cases (ltb now slot.expires_at)) [
      | inr dead ↦
          rw (lookup-cons a acc slot s, dead)
            (elim (Bool-cases (a == acc)) [
              | inl same ↦
                  let absent : lookup acc s ≡ none = rw⁻¹ (==→≡ a acc same) u.0 in
                  rw same (
                    λ x h l. absurd (ground (arith, dead)),
                    λ x h. absurd (ground (arith, old x h, absent)),
                  )
              | inr other ↦ rw other (keeps, old)
            ])
      | inl live ↦ elim (Bool-cases (slot.token == token)) [
        | inl found ↦ rw (live, found) (λ x h l. h, λ x h. h)
        | inr going ↦
            rw (live, going)
              (rw (lookup-cons a acc slot s, lookup-cons a acc slot (find_by_token s token now).0)
                (elim (Bool-cases (a == acc)) [
                  | inl same ↦ rw same (λ x h l. h, λ x h. h)
                  | inr other ↦ rw other (keeps, old)
                ]))
      ]
    ]

abbrev Finds : ℕ → InviteStore → String → Option InviteSlot → Type 0
Finds now s token none =
    (acc : String) (slot : InviteSlot)
    → lookup acc s ≡ some slot
    → ltb now slot.expires_at ≡ true
    → (slot.token == token) ≡ false
Finds now s token (some slot) =
    (ltb now slot.expires_at ≡ true)
    × (slot.token ≡ token)
    × ((acc : String) × (lookup acc s ≡ some slot))

Finds-cons :
    (now : ℕ) (s : InviteStore) (token a : String) (slot : InviteSlot) (o : Option InviteSlot)
    → lookup a s ≡ none
    → (ltb now slot.expires_at && slot.token == token) ≡ false
    → Finds now s token o
    → Finds now ((a, slot) ∷ s) token o
Finds-cons now s token a slot none new bad f = λ acc x h l.
    let h' = sym (lookup-cons a acc slot s) ∙ h in
    elim (Bool-cases (a == acc)) [
      | inl same ↦
          let eq : some slot ≡ some x = rw same at h' in
          let is_same : slot ≡ x = ground arith in
          let l' = subst (λ (i : InviteSlot). ltb now i.expires_at ≡ true) (sym is_same) l in
          subst (λ (i : InviteSlot). (i.token == token) ≡ false) is_same (ground arith)
      | inr other ↦ f acc x (rw other at h') l
    ]
Finds-cons now s token a slot (some x) new bad (live, same, (acc, h)) = (
  live,
  same,
  (
    acc,
    elim (Bool-cases (a == acc)) [
      | inl e ↦
          let none_here : lookup acc s ≡ none = rw⁻¹ (==→≡ a acc e) new in absurd (ground arith)
      | inr other ↦ rw (lookup-cons a acc slot s, other) h
    ],
  ),
)

find_by_token-Finds :
    (s : InviteStore) (token : String) (now : ℕ)
    → NodupKeys s
    → Finds now s token (find_by_token s token now).1
unfolding find_by_token
find_by_token-Finds [] token now u =
    λ acc x h l. absurd (ground (arith, lookup-nil {V = InviteSlot} acc))
find_by_token-Finds ((a, slot) ∷ s) token now u =
    let ih = find_by_token-Finds s token now u.1 in
    elim (Bool-cases (ltb now slot.expires_at)) [
      | inr dead ↦
          rw dead
            (Finds-cons now s token a slot (find_by_token s token now).1 u.0 (rw dead refl) ih)
      | inl live ↦ elim (Bool-cases (slot.token == token)) [
        | inl found ↦
            rw (live, found)
              (live, ==→≡ slot.token token found, (a, rw (lookup-cons a a slot s, ==-refl a) refl))
        | inr going ↦
            rw (live, going)
              (Finds-cons now s token a slot (find_by_token s token now).1 u.0
                (rw (live, going) refl) ih)
      ]
    ]

-- A lookup by token, in a map, finds a live slot of the map with that token or, where there is none,
-- nothing; and it leaves every live slot, and only slots that were there.
find_by_token_lem :
    (s : InviteStore) (token : String) (now : ℕ)
    → NodupKeys s
    → let (s', found) = find_by_token s token now in Finds now s token found × Keeps now s s'
find_by_token_lem s token now u =
    (find_by_token-Finds s token now u, find_by_token-Keeps s token now u)
