-- ===== src/Approval/Sweeps.antt =====
-- What the janitor's sweep and a connection's cancellation leave in the store.
use shell_watch.Base.{
  ℕ, ◌+◌, ◌≤◌, ◌<◌, ◌≡◌, refl, ◌≢◌, ◌&&◌, Option, none, some, String, [], ◌∷◌, arith, ◌==◌,
  if◌then◌else◌, lookup, string_eq,
}
use shell_watch.Approval.{Status, Action, cleanup_grace}
use shell_watch.Approval.Store.{
  Actions, is_pending, expire, is_stale, sweep_loop, sweep, cancel_loop, cancel_for_connection,
}
use shell_watch.Approval.Once.{sweep_loop-absent}
use shell_watch.Approval.History.{Keyed}

abbrev swept : ℕ → Option Action → Option Action
swept now none = none
swept now (some a) = if is_stale now (expire now a) then none else some (expire now a)

sweep_loop-found :
    (now : ℕ) (id : String) (d : Actions)
    → Keyed d
    → lookup id (sweep_loop now d).0 ≡ swept now (lookup id d)
unfolding sweep_loop lookup
sweep_loop-found now id [] k = refl
sweep_loop-found now id ((j, a) ∷ d) k =
    ground (arith, sweep_loop-found now id d k.2, sweep_loop-absent now j d k.1)

-- What a sweep at `now` does to one action, before and after.
pub record IsSwept (now : ℕ) (before after : Option Action) : Type 0 where
  pub in_time : (a : Action) → after ≡ some a → a.status ≡ Status.pending → now < a.expires_at
  pub recent :
      (a : Action) → after ≡ some a → a.status ≢ Status.pending → now ≤ a.expires_at + cleanup_grace
  pub keeps_pending :
      (a : Action)
      → before ≡ some a
      → a.status ≡ Status.pending
      → now < a.expires_at
      → after ≡ some a
  pub keeps_final :
      (a : Action)
      → before ≡ some a
      → a.status ≢ Status.pending
      → now ≤ a.expires_at + cleanup_grace
      → after ≡ some a
  pub expires :
      (a : Action)
      → before ≡ some a
      → a.status ≡ Status.pending
      → a.expires_at ≤ now
      → now ≤ a.expires_at + cleanup_grace
      → after ≡ some (record a { status = Status.expired })

-- In a map keyed by ids, after a sweep no pending action is past its deadline and no other action is past its deadline by
-- more than the grace period; a pending action in time and a final one within the grace period are
-- as they were, and a pending one that is past its deadline by no more than that is expired.
pub sweep-IsSwept :
    (s : Actions) (now later : ℕ) (id : String)
    → Keyed s
    → IsSwept now (lookup id s) (lookup id (sweep s now later).0)
unfolding sweep
sweep-IsSwept s now later id k = record {
  in_time = λ a e p. ground (arith, sweep_loop-found now id s k);
  recent = λ a e p. ground (arith, sweep_loop-found now id s k);
  keeps_pending = λ a e p t. ground (arith, sweep_loop-found now id s k);
  keeps_final = λ a e p t. ground (arith, sweep_loop-found now id s k);
  expires = λ a e p t u. ground (arith, sweep_loop-found now id s k);
}

abbrev cancelled : String → Option Action → Option Action
cancelled c none = none
cancelled c (some a) =
    if is_pending a.status && a.connection_id == c
    then some (record a { status = Status.denied })
    else some a

cancel_loop-found :
    (c id : String) (d : Actions)
    → Keyed d
    → lookup id (cancel_loop c d).0 ≡ cancelled c (lookup id d)
unfolding cancel_loop lookup
cancel_loop-found c id [] k = refl
cancel_loop-found c id ((j, a) ∷ d) k = ground (arith, cancel_loop-found c id d k.2)

-- In a map keyed by ids, after the cancellation for a connection no action of that connection is pending; every other
-- action is as it was, whether it is of another connection or was final before.
pub cancel_for_connection-cancels :
    (s : Actions) (c reason : String) (later : ℕ) (id : String) (a : Action)
    → Keyed s
    → lookup id s ≡ some a
    → let after = lookup id (cancel_for_connection s c reason later).0 in
      (a.status ≡ Status.pending
        → a.connection_id ≡ c
        → after ≡ some (record a { status = Status.denied }))
      × (a.status ≡ Status.pending → a.connection_id ≢ c → after ≡ some a)
      × (a.status ≢ Status.pending → after ≡ some a)
unfolding cancel_for_connection
cancel_for_connection-cancels s c reason later id a k e = (
  λ p q. ground (arith, cancel_loop-found c id s k),
  λ p q. ground (arith, cancel_loop-found c id s k),
  λ p. ground (arith, cancel_loop-found c id s k),
)
