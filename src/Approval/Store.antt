-- ===== src/Approval/Store.antt =====
-- internal/approval/store.go: the operations. Each takes the lock once for its transition, so it is
-- one step; its callbacks and events follow after the lock is released and are listed in their
-- order. `now` is the clock's reading under the lock, `later` the reading for the events.
use shell_watch.Base.{
  ℕ, ◌+◌, Bool, true, false, not, ◌&&◌, Option, none, some, String, List, [], ◌∷◌, ◌++◌, ltb, ◌==◌,
  if◌then◌else◌, Dict, lookup, insert, string_eq,
}
use mathlib.Core.Logic.{ite}
use shell_watch.Approval.{
  ActionType, ActionType-discrete, webauthn_sign, key_approve, Status, Action, CreateParams,
  Outcome, SignError, err_denied, err_expired, err_cancelled, SignResponse, Effect, created,
  resolves_sign, resolves_key, rejects, resolved, ClaimResult, action_ttl, cleanup_grace,
}

abbrev pub Actions : Type 0
Actions = Dict String Action

abbrev pub is_pending : Status → Bool
is_pending Status.pending = true
is_pending _ = false

-- `!a.ExpiresAt.After(now)`
abbrev pub is_overdue : ℕ → Action → Bool
is_overdue now a = not (ltb now a.expires_at)

-- `typ != "" && a.Type != typ`
abbrev pub is_other_type : Option ActionType → ActionType → Bool
is_other_type none k = false
is_other_type (some t) k = ite (ActionType-discrete k t) false true

-- The effects of `if f != nil { f(…) }`.
abbrev pub when : Bool → Effect → List Effect
when b e = if b then e ∷ [] else []

abbrev pub emit_resolved : Action → Outcome → ℕ → String → List Effect
emit_resolved a o later reason =
    resolved (record { action = a; outcome = o; resolved_at = later; cancel_reason = reason }) ∷ []

unfoldable pub create : Actions → CreateParams → String → ℕ → Actions × Action × List Effect
create s p new_id now =
    let a : Action = record {
      id = new_id;
      status = Status.pending;
      created_at = now;
      expires_at = now + action_ttl;
      params = p;
    } in
    (insert new_id a s, a, created a ∷ [])

unfoldable pub get : Actions → String → Option Action
get s id = lookup id s

-- A claim: the new state, the action if this call won it, what it reports, and its effects.
abbrev pub Claim : Type 0
Claim = Actions × Option Action × ClaimResult × List Effect

-- `takePending` for an action that the map holds.
unfoldable pub claim_found : Actions → String → Action → Option ActionType → Status → ℕ → ℕ → Claim
claim_found s id a typ to now later =
    if is_other_type typ a.action_type
    then (s, none, record { won = false; found = false; status = none }, [])
    else if is_pending a.status && is_overdue now a
    then (let x = record a { status = Status.expired } in
        (
          insert id x s,
          none,
          record { won = false; found = true; status = some Status.expired },
          when a.has_reject (rejects a.id err_expired) ++ emit_resolved x Outcome.expired later "",
        ))
    else if not (is_pending a.status)
    then (s, none, record { won = false; found = true; status = some a.status }, [])
    else (let x = record a { status = to } in
        (insert id x s, some x, record { won = true; found = true; status = some to }, []))

unfoldable pub take_pending : Actions → String → Option ActionType → Status → ℕ → ℕ → Claim
unfolding claim_found
take_pending s id typ to now later = elim (lookup id s) [
  | none ↦ (s, none, record { won = false; found = false; status = none }, [])
  | some a ↦ claim_found s id a typ to now later
]

-- The state, the report and the effects of a resolution, given what happens to a won action.
abbrev pub after_claim : Claim → (Action → List Effect) → Actions × ClaimResult × List Effect
after_claim (s, none, r, es) f = (s, r, es)
after_claim (s, some a, r, es) f = (s, r, es ++ f a)

unfoldable pub resolve_sign :
    Actions → String → SignResponse → ℕ → ℕ → Actions × ClaimResult × List Effect
resolve_sign s id resp now later =
    after_claim (take_pending s id (some webauthn_sign) Status.completed now later) λ a.
      when a.has_resolve_sign (resolves_sign a.id (record resp { action_id = a.id }))
      ++ emit_resolved a Outcome.approved later ""

unfoldable pub resolve_key : Actions → String → ℕ → ℕ → Actions × ClaimResult × List Effect
resolve_key s id now later =
    after_claim (take_pending s id (some key_approve) Status.completed now later)
      λ a. when a.has_resolve_key (resolves_key a.id) ++ emit_resolved a Outcome.approved later ""

unfoldable pub deny : Actions → String → ℕ → ℕ → Actions × ClaimResult × List Effect
deny s id now later =
    after_claim (take_pending s id none Status.denied now later)
      λ a. when a.has_reject (rejects a.id err_denied) ++ emit_resolved a Outcome.denied later ""

-- The loop of `CancelForConnection`: the map, and the actions it cancelled.
unfoldable pub cancel_loop : String → Actions → Actions × List Action
cancel_loop c [] = ([], [])
cancel_loop c ((k, a) ∷ d) =
    let (d', out) = cancel_loop c d in
    if is_pending a.status && a.connection_id == c
    then (let x = record a { status = Status.denied } in ((k, x) ∷ d', x ∷ out))
    else ((k, a) ∷ d', out)

-- Each action of the list is rejected and reported.
unfoldable pub report : SignError → Outcome → ℕ → String → List Action → List Effect
report e o later reason [] = []
report e o later reason (a ∷ as') =
    when a.has_reject (rejects a.id e)
    ++ emit_resolved a o later reason
    ++ report e o later reason as'

unfoldable pub cancel_for_connection :
    Actions → String → String → ℕ → Actions × List Action × List Effect
unfolding cancel_loop report
cancel_for_connection s c reason later =
    let (d, out) = cancel_loop c s in
    (d, out, report err_cancelled Outcome.cancelled later reason out)

-- One action under a sweep: what is left of it.
abbrev pub expire : ℕ → Action → Action
expire now a =
    if is_pending a.status && is_overdue now a then record a { status = Status.expired } else a

-- `a.Status != StatusPending && now.Sub(a.ExpiresAt) > cleanupGrace`
abbrev pub is_stale : ℕ → Action → Bool
is_stale now a = not (is_pending a.status) && ltb (a.expires_at + cleanup_grace) now

-- The loop of `Sweep`: the map, and the actions that it expired.
unfoldable pub sweep_loop : ℕ → Actions → Actions × List Action
sweep_loop now [] = ([], [])
sweep_loop now ((k, a) ∷ d) =
    let (d', out) = sweep_loop now d in
    (
      (if is_stale now (expire now a) then d' else (k, expire now a) ∷ d'),
      (if is_pending a.status && is_overdue now a then expire now a ∷ out else out),
    )

unfoldable pub sweep : Actions → ℕ → ℕ → Actions × List Effect
unfolding sweep_loop report
sweep s now later =
    let (d, out) = sweep_loop now s in (d, report err_expired Outcome.expired later "" out)
