-- ===== src/Approval/Once.antt =====
-- An action is resolved once: over any history, at most one call of its callbacks and at most one
-- event, so that a send on a one-place channel never blocks.
use shell_watch.Base.{
  ℕ, ◌+◌, ◌≤◌, ◌≡◌, refl, false, Option, none, some, String, List, [], ◌∷◌, arith, ◌==◌,
  if◌then◌else◌, lookup, lookup-insert, string_eq, Option-cases, Bool-cases, inl, inr,
}
use shell_watch.Approval.{
  ActionType, webauthn_sign, key_approve, Status, Action, Effect, Outcome, SignError, err_expired,
  err_cancelled,
}
use shell_watch.Approval.Store.{
  Actions, is_pending, is_overdue, is_other_type, claim_found, take_pending, resolve_sign,
  resolve_key, deny, create, cancel_loop, report, cancel_for_connection, sweep_loop, sweep,
  after_claim,
}
use shell_watch.Approval.History.{
  Call, Keyed, step, run, events, callbacks, pend, events-append, callbacks-append, Closes,
  lookup-Keyed, insert-Keyed, creates, resolves_signs, approves_key, denies, cancels, sweeps,
}

after_found-Closes :
    (s : Actions) (id j : String) (a : Action) (typ : Option ActionType) (to : Status)
    (now later : ℕ) (f : Action → List Effect)
    → Keyed s
    → lookup j s ≡ some a
    → is_pending to ≡ false
    → ((b : Action)
        → b.id ≡ j
        → (events id (f b) ≡ (if j == id then 1 else 0)) × (callbacks id (f b) ≤ events id (f b)))
    → let (s', _, es) = after_claim (claim_found s j a typ to now later) f in
      Keyed s' × Closes id (lookup id s) (lookup id s') es
unfolding claim_found
after_found-Closes s id j a typ to now later f k e final ends =
    let own = lookup-Keyed j s a k e in
    elim (Bool-cases (is_other_type typ a.action_type)) [
      | inl other ↦ rw other (k, (omega arith, omega arith))
      | inr same ↦ elim (Bool-cases (is_pending a.status)) [
        | inr closed ↦ rw (same, closed) (k, (omega arith, omega arith))
        | inl open_still ↦ elim (Bool-cases (is_overdue now a)) [
          | inl over ↦
              let x : Action = record a { status = Status.expired } in
              rw (same, open_still, over)
                (
                  insert-Keyed j x s own k,
                  (ground (arith, lookup-insert id j x s, own, e, open_still), ground (arith, own)),
                )
          | inr early ↦
              let x : Action = record a { status = to } in
              rw (same, open_still, early)
                (
                  insert-Keyed j x s own k,
                  (
                    ground (arith, lookup-insert id j x s, ends x own, e, open_still, final),
                    ground (arith, ends x own),
                  ),
                )
        ]
      ]
    ]

after_claim-Closes :
    (s : Actions) (id j : String) (typ : Option ActionType) (to : Status) (now later : ℕ)
    (f : Action → List Effect)
    → Keyed s
    → is_pending to ≡ false
    → ((b : Action)
        → b.id ≡ j
        → (events id (f b) ≡ (if j == id then 1 else 0)) × (callbacks id (f b) ≤ events id (f b)))
    → let (s', _, es) = after_claim (take_pending s j typ to now later) f in
      Keyed s' × Closes id (lookup id s) (lookup id s') es
unfolding take_pending
after_claim-Closes s id j typ to now later f k final ends = elim (Option-cases (lookup j s)) [
  | inl e ↦ rw (e, take_pending) (k, (omega arith, omega arith))
  | inr (a, e) ↦
      rw (e, take_pending) (after_found-Closes s id j a typ to now later f k e final ends)
]

-- How many actions of the list are `id`.
abbrev pub occurrences : String → List Action → ℕ
occurrences id [] = 0
occurrences id (a ∷ as') = (if a.id == id then 1 else 0) + occurrences id as'

pub report-occurrences :
    (id : String) (e : SignError) (o : Outcome) (later : ℕ) (reason : String) (as' : List Action)
    → (events id (report e o later reason as') ≡ occurrences id as')
      × (callbacks id (report e o later reason as') ≤ occurrences id as')
unfolding report
report-occurrences id e o later reason [] = (refl, omega arith)
report-occurrences id e o later reason (a ∷ as') =
    let (h, l) = report-occurrences id e o later reason as' in
    elim (Bool-cases a.has_reject) [
      | inl r ↦ rw r (omega (arith, h), omega (arith, l))
      | inr r ↦ rw r (omega (arith, h), omega (arith, l))
    ]

pub cancel_loop-absent :
    (c id : String) (d : Actions) → lookup id d ≡ none → lookup id (cancel_loop c d).0 ≡ none
unfolding cancel_loop lookup
cancel_loop-absent c id [] h = refl
cancel_loop-absent c id ((j, a) ∷ d) h = ground (arith, cancel_loop-absent c id d)

cancel_loop-Closes :
    (c id : String) (d : Actions)
    → Keyed d
    → Keyed (cancel_loop c d).0
      × (occurrences id (cancel_loop c d).1 + pend (lookup id (cancel_loop c d).0)
          ≡ pend (lookup id d))
unfolding cancel_loop lookup
cancel_loop-Closes c id [] k = (tt, omega arith)
cancel_loop-Closes c id ((j, a) ∷ d) k =
    let (kept, le) = cancel_loop-Closes c id d k.2 in
    ground (arith, kept, le, k, cancel_loop-absent c j d k.1)

pub sweep_loop-absent :
    (now : ℕ) (id : String) (d : Actions)
    → lookup id d ≡ none
    → lookup id (sweep_loop now d).0 ≡ none
unfolding sweep_loop lookup
sweep_loop-absent now id [] h = refl
sweep_loop-absent now id ((j, a) ∷ d) h = ground (arith, sweep_loop-absent now id d)

sweep_loop-Closes :
    (now : ℕ) (id : String) (d : Actions)
    → Keyed d
    → Keyed (sweep_loop now d).0
      × (occurrences id (sweep_loop now d).1 + pend (lookup id (sweep_loop now d).0)
          ≡ pend (lookup id d))
unfolding sweep_loop lookup
sweep_loop-Closes now id [] k = (tt, omega arith)
sweep_loop-Closes now id ((j, a) ∷ d) k =
    let (kept, le) = sweep_loop-Closes now id d k.2 in
    ground (arith, kept, le, k, sweep_loop-absent now j d k.1, sweep_loop-absent now id d)

-- No call of the history makes an action with the id.
abbrev pub NeverCreates : String → List Call → Type 0
NeverCreates id [] = Unit
NeverCreates id (creates p j now ∷ cs) = ((j == id) ≡ false) × NeverCreates id cs
NeverCreates id (_ ∷ cs) = NeverCreates id cs

pub NeverCreates-head :
    (id : String) (c : Call) (cs : List Call) → NeverCreates id (c ∷ cs) → NeverCreates id (c ∷ [])
NeverCreates-head id (creates p j now) cs n = (n.0, tt)
NeverCreates-head id (resolves_signs j r now later) cs n = tt
NeverCreates-head id (approves_key j now later) cs n = tt
NeverCreates-head id (denies j now later) cs n = tt
NeverCreates-head id (cancels j r later) cs n = tt
NeverCreates-head id (sweeps now later) cs n = tt

pub NeverCreates-tail :
    (id : String) (c : Call) (cs : List Call) → NeverCreates id (c ∷ cs) → NeverCreates id cs
NeverCreates-tail id (creates p j now) cs n = n.1
NeverCreates-tail id (resolves_signs j r now later) cs n = n
NeverCreates-tail id (approves_key j now later) cs n = n
NeverCreates-tail id (denies j now later) cs n = n
NeverCreates-tail id (cancels j r later) cs n = n
NeverCreates-tail id (sweeps now later) cs n = n

pend-le : (o : Option Action) → pend o ≤ 1
pend-le none = omega arith
pend-le (some a) = ground arith

pub step-Closes :
    (id : String) (s : Actions) (c : Call)
    → Keyed s
    → NeverCreates id (c ∷ [])
    → Keyed (step s c).0 × Closes id (lookup id s) (lookup id (step s c).0) (step s c).1
unfolding step create resolve_sign resolve_key deny cancel_for_connection sweep
step-Closes id s (creates p j now) k n = (
  insert-Keyed j _ s refl k,
  (ground (arith, lookup-insert id j (create s p j now).1 s, n.0), omega arith),
)
step-Closes id s (resolves_signs j resp now later) k n =
    after_claim-Closes s id j (some webauthn_sign) Status.completed now later _ k refl
      λ b own. (ground (arith, own), ground (arith, own))
step-Closes id s (approves_key j now later) k n =
    after_claim-Closes s id j (some key_approve) Status.completed now later _ k refl
      λ b own. (ground (arith, own), ground (arith, own))
step-Closes id s (denies j now later) k n =
    after_claim-Closes s id j none Status.denied now later _ k refl
      λ b own. (ground (arith, own), ground (arith, own))
step-Closes id s (cancels c reason later) k n =
    let (kept, le) = cancel_loop-Closes c id s k in
    let (ev, cb) =
      report-occurrences id err_cancelled Outcome.cancelled later reason (cancel_loop c s).1 in
    (kept, (omega (arith, le, ev), omega (arith, ev, cb)))
step-Closes id s (sweeps now later) k n =
    let (kept, le) = sweep_loop-Closes now id s k in
    let (ev, cb) =
      report-occurrences id err_expired Outcome.expired later "" (sweep_loop now s).1 in
    (kept, (omega (arith, le, ev), omega (arith, ev, cb)))

pub run-Closes :
    (id : String) (s : Actions) (cs : List Call)
    → Keyed s
    → NeverCreates id cs
    → Keyed (run s cs).0 × Closes id (lookup id s) (lookup id (run s cs).0) (run s cs).1
unfolding run
run-Closes id s [] k n = (k, (omega arith, omega arith))
run-Closes id s (c ∷ cs) k n =
    let (k', (ev, cb)) = step-Closes id s c k (NeverCreates-head id c cs n) in
    let (k'', (ev', cb')) = run-Closes id (step s c).0 cs k' (NeverCreates-tail id c cs n) in
    (
      k'',
      (
        omega (arith, ev, ev', events-append id (step s c).1 (run (step s c).0 cs).1),
        omega (
          arith,
          cb,
          cb',
          events-append id (step s c).1 (run (step s c).0 cs).1,
          callbacks-append id (step s c).1 (run (step s c).0 cs).1,
        ),
      ),
    )

-- Over any history of calls that makes no second action with the id, on a map keyed by ids: an
-- action that was pending has exactly one final event if it is pending no more, and none while it
-- is; one that was not pending or not there has none; and its callbacks are called at most once.
pub run_resolves_once :
    (id : String) (s : Actions) (cs : List Call)
    → Keyed s
    → NeverCreates id cs
    → (events id (run s cs).1 + pend (lookup id (run s cs).0) ≡ pend (lookup id s))
      × (callbacks id (run s cs).1 ≤ events id (run s cs).1)
      × (callbacks id (run s cs).1 ≤ 1)
run_resolves_once id s cs k n =
    let (_, (ev, cb)) = run-Closes id s cs k n in
    (ev, cb, ground (arith, ev, cb, pend-le (lookup id s)))
