-- ===== src/Approval/Claims.antt =====
-- What a claim decides and what it reports.
use shell_watch.Base.{
  ℕ, ◌<◌, ◌≡◌, refl, ◌≢◌, ◌↔◌, true, false, Option, none, some, String, arith, lookup,
  lookup-insert, string_eq, Bool-cases, Option-cases, inl, inr,
}
use shell_watch.Approval.{ActionType, Status, Action, ClaimResult}
use shell_watch.Approval.Store.{
  Actions, is_pending, is_overdue, is_other_type, claim_found, take_pending,
}

-- A claim of `id` can win: the action is there, of the kind asked for, pending, and in time.
pub record IsClaimable (s : Actions) (id : String) (typ : Option ActionType) (now : ℕ)
    : Type 0 where
  pub action : Action
  pub there : lookup id s ≡ some action
  pub kind : is_other_type typ action.action_type ≡ false
  pub open_still : action.status ≡ Status.pending
  pub in_time : now < action.expires_at

-- The report of a claim agrees with the state that it leaves: an action that it found stands in the
-- map with the status reported, which is not pending.
abbrev pub Reports : String → Actions → ClaimResult → Type 0
Reports id s r =
    (r.won ≡ true → r.found ≡ true)
    × (r.found ≡ false → r.status ≡ none)
    × (r.found ≡ true
        → (a : Action) × (lookup id s ≡ some a)
          × (r.status ≡ some a.status)
          × (a.status ≢ Status.pending))

-- A claim wins exactly where the action is of its kind, pending and before its deadline.
pub take_pending-wins :
    (s : Actions) (id : String) (typ : Option ActionType) (to : Status) (now later : ℕ)
    → ((take_pending s id typ to now later).2.won ≡ true) ↔ IsClaimable s id typ now
unfolding take_pending
take_pending-wins s id typ to now later = elim (Option-cases (lookup id s)) [
  | inl e ↦ rw (e, take_pending) (λ h. cc, λ c. ground (arith, c.there))
  | inr (a, e) ↦
      rw (e, take_pending)
        (
          λ h. record {
            action = a;
            there = e;
            kind = ground arith;
            open_still = ground arith;
            in_time = ground arith;
          },
          λ c. ground (arith, c.there, c.kind, c.open_still, c.in_time),
        )
]

claim_found-Reports :
    (s : Actions) (id : String) (a : Action) (typ : Option ActionType) (to : Status) (now later : ℕ)
    → lookup id s ≡ some a
    → to ≢ Status.pending
    → let (s', _, r, _) = claim_found s id a typ to now later in Reports id s' r
unfolding claim_found
claim_found-Reports s id a typ to now later e final =
    elim (Bool-cases (is_other_type typ a.action_type)) [
      | inl other ↦ rw other (λ h. cc, λ _. refl, λ h. cc)
      | inr same ↦ elim (Bool-cases (is_pending a.status)) [
        | inr closed ↦ rw (same, closed) (λ h. refl, λ h. cc, λ _. (a, e, refl, λ p. ground arith))
        | inl open_still ↦ elim (Bool-cases (is_overdue now a)) [
          | inl over ↦
              rw (same, open_still, over)
                (
                  λ h. refl,
                  λ h. cc,
                  λ _. (
                    record a { status = Status.expired },
                    ground (arith, lookup-insert id id (record a { status = Status.expired }) s),
                    refl,
                    λ p. cc,
                  ),
                )
          | inr early ↦
              rw (same, open_still, early)
                (
                  λ h. refl,
                  λ h. cc,
                  λ _. (
                    record a { status = to },
                    ground (arith, lookup-insert id id (record a { status = to }) s),
                    refl,
                    final,
                  ),
                )
        ]
      ]
    ]

-- Whatever a claim with a final status finds, its report is what the store then holds: a claim that
-- won has found its action, one that found none reports no status, and the status that is reported
-- is the one that the action in the map has afterwards, and not pending.
pub take_pending-Reports :
    (s : Actions) (id : String) (typ : Option ActionType) (to : Status) (now later : ℕ)
    → to ≢ Status.pending
    → let (s', _, r, _) = take_pending s id typ to now later in Reports id s' r
unfolding take_pending
take_pending-Reports s id typ to now later final = elim (Option-cases (lookup id s)) [
  | inl e ↦ rw (e, take_pending) (λ h. cc, λ _. refl, λ h. cc)
  | inr (a, e) ↦ rw (e, take_pending) (claim_found-Reports s id a typ to now later e final)
]
