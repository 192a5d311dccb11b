-- ===== src/Approval/Answers.antt =====
-- What reaches the waiting requests in a history of calls: a message for each action that is decided.
use shell_watch.Base.{
  ℕ, ◌≡◌, refl, sym, ==→≡, ap, ◌∙◌, true, false, ◌&&◌, Option, none, some, String, List, [], ◌∷◌,
  arith, ◌==◌, lookup, lookup-insert, string_eq, Option-cases, Bool-cases, inl, inr,
}
use shell_watch.Approval.{
  ActionType, webauthn_sign, key_approve, Status, Action, CreateParams, Effect, Outcome, SignError,
  err_expired, err_cancelled,
}
use shell_watch.Approval.Store.{
  Actions, is_pending, is_overdue, is_other_type, claim_found, take_pending, resolve_sign,
  resolve_key, deny, create, cancel_loop, report, cancel_for_connection, sweep_loop, sweep,
  after_claim,
}
use shell_watch.Approval.Once.{
  NeverCreates, NeverCreates-head, NeverCreates-tail, occurrences, report-occurrences, step-Closes,
  sweep_loop-absent,
}
use shell_watch.Approval.History.{
  Call, creates, resolves_signs, approves_key, denies, cancels, sweeps, Keyed, step, run, events,
  callbacks, events-append, callbacks-append, lookup-Keyed,
}

-- The action has every callback that its kind may call.
pub record IsCallable (p : CreateParams) : Type 0 where
  pub may_reject : p.has_reject ≡ true
  pub may_sign : p.action_type ≡ webauthn_sign → p.has_resolve_sign ≡ true
  pub may_approve : p.action_type ≡ key_approve → p.has_resolve_key ≡ true

abbrev pub CallableAt : ℕ → Option Action → Type 0
CallableAt d none = Unit
CallableAt d (some a) = IsCallable a.params × (a.expires_at ≡ d)

-- Each final event of `id` comes with a call of its callback.
abbrev Answers : ℕ → String → Option Action → List Effect → Type 0
Answers d id after es = CallableAt d after × (callbacks id es ≡ events id es)

after_found-Answers :
    (d : ℕ) (s : Actions) (id j : String) (a : Action) (typ : Option ActionType) (to : Status)
    (now later : ℕ) (f : Action → List Effect)
    → Keyed s
    → CallableAt d (lookup id s)
    → lookup j s ≡ some a
    → ((b : Action)
        → b.id ≡ j
        → is_other_type typ b.action_type ≡ false
        → (j ≡ id → IsCallable b.params)
        → callbacks id (f b) ≡ events id (f b))
    → let (s', _, es) = after_claim (claim_found s j a typ to now later) f in
      Answers d id (lookup id s') es
unfolding claim_found
after_found-Answers d s id j a typ to now later f k c e ends =
    let own = lookup-Keyed j s a k e in
    elim (Bool-cases (is_other_type typ a.action_type)) [
      | inl other ↦ rw other (c, refl)
      | inr same ↦ elim (Bool-cases (is_pending a.status)) [
        | inr closed ↦ rw (same, closed) (c, refl)
        | inl open_still ↦ elim (Bool-cases (is_overdue now a)) [
          | inl over ↦
              let x : Action = record a { status = Status.expired } in
              rw (same, open_still, over)
                (ground (arith, lookup-insert id j x s, e, c), ground (arith, own, e, c))
          | inr early ↦
              let x : Action = record a { status = to } in
              rw (same, open_still, early)
                (ground (arith, lookup-insert id j x s, e, c), ends x own same (callable own))
        ]
      ]
    ]
  where
    callable : a.id ≡ j → j ≡ id → IsCallable a.params
    callable own h = ground (arith, e, c)

after_claim-Answers :
    (d : ℕ) (s : Actions) (id j : String) (typ : Option ActionType) (to : Status) (now later : ℕ)
    (f : Action → List Effect)
    → Keyed s
    → CallableAt d (lookup id s)
    → ((b : Action)
        → b.id ≡ j
        → is_other_type typ b.action_type ≡ false
        → (j ≡ id → IsCallable b.params)
        → callbacks id (f b) ≡ events id (f b))
    → let (s', _, es) = after_claim (take_pending s j typ to now later) f in
      Answers d id (lookup id s') es
unfolding take_pending
after_claim-Answers d s id j typ to now later f k c ends = elim (Option-cases (lookup j s)) [
  | inl e ↦ rw (e, take_pending) (c, refl)
  | inr (a, e) ↦ rw (e, take_pending) (after_found-Answers d s id j a typ to now later f k c e ends)
]

-- Each action `id` of the list can be rejected.
abbrev AllReject : String → List Action → Type 0
AllReject id [] = Unit
AllReject id (a ∷ as') = (a.id ≡ id → a.has_reject ≡ true) × AllReject id as'

report-callbacks :
    (id : String) (e : SignError) (o : Outcome) (later : ℕ) (reason : String) (as' : List Action)
    → AllReject id as'
    → callbacks id (report e o later reason as') ≡ occurrences id as'
unfolding report
report-callbacks id e o later reason [] r = refl
report-callbacks id e o later reason (a ∷ as') r =
    let rest = report-callbacks id e o later reason as' r.1 in
    elim (Bool-cases a.has_reject) [
      | inl h ↦ rw h (omega (arith, rest))
      | inr h ↦ rw h (ground (arith, rest, r.0))
    ]

CallableAt-tail :
    (d : ℕ) (id j : String) (a : Action) (s : Actions)
    → Keyed ((j, a) ∷ s)
    → CallableAt d (lookup id ((j, a) ∷ s))
    → CallableAt d (lookup id s)
unfolding lookup
CallableAt-tail d id j a s k h = elim (Bool-cases (j == id)) [
  | inl same ↦ rw (ap (λ i. lookup i s) (sym (==→≡ j id same)) ∙ k.1) tt
  | inr other ↦ rw other at h
]

cancel_loop-AllReject :
    (d : ℕ) (c id : String) (s : Actions)
    → Keyed s
    → CallableAt d (lookup id s)
    → AllReject id (cancel_loop c s).1 × CallableAt d (lookup id (cancel_loop c s).0)
unfolding cancel_loop lookup
cancel_loop-AllReject d c id [] k h = (tt, tt)
cancel_loop-AllReject d c id ((j, a) ∷ s) k h =
    let (r, kept) = cancel_loop-AllReject d c id s k.2 (CallableAt-tail d id j a s k h) in
    elim (Bool-cases (is_pending a.status && a.connection_id == c)) [
      | inl e ↦ rw e (
        (λ i. ground arith, r),
        elim (Bool-cases (j == id)) [
          | inl same ↦ rw same (rw same at h)
          | inr other ↦ rw other kept
        ],
      )
      | inr e ↦ rw e (
        r,
        elim (Bool-cases (j == id)) [
          | inl same ↦ rw same (rw same at h)
          | inr other ↦ rw other kept
        ],
      )
    ]

sweep_loop-AllReject :
    (d now : ℕ) (id : String) (s : Actions)
    → Keyed s
    → CallableAt d (lookup id s)
    → AllReject id (sweep_loop now s).1 × CallableAt d (lookup id (sweep_loop now s).0)
unfolding sweep_loop lookup
sweep_loop-AllReject d now id [] k h = (tt, tt)
sweep_loop-AllReject d now id ((j, a) ∷ s) k h =
    let (r, kept) = sweep_loop-AllReject d now id s k.2 (CallableAt-tail d id j a s k h) in
    (ground (arith, r), ground (arith, kept, sweep_loop-absent now j s k.1))

pub step-Answers :
    (d : ℕ) (id : String) (s : Actions) (c : Call)
    → Keyed s
    → NeverCreates id (c ∷ [])
    → CallableAt d (lookup id s)
    → Answers d id (lookup id (step s c).0) (step s c).1
unfolding step create resolve_sign resolve_key deny cancel_for_connection sweep
step-Answers d id s (creates p j now) k n h =
    (ground (arith, lookup-insert id j (create s p j now).1 s, n.0), refl)
step-Answers d id s (resolves_signs j resp now later) k n h =
    after_claim-Answers d s id j (some webauthn_sign) Status.completed now later _ k h
      λ b own same call. ground (arith, own, same, call)
step-Answers d id s (approves_key j now later) k n h =
    after_claim-Answers d s id j (some key_approve) Status.completed now later _ k h
      λ b own same call. ground (arith, own, same, call)
step-Answers d id s (denies j now later) k n h =
    after_claim-Answers d s id j none Status.denied now later _ k h
      λ b own same call. ground (arith, own, same, call)
step-Answers d id s (cancels c reason later) k n h =
    let (r, kept) = cancel_loop-AllReject d c id s k h in
    let out = (cancel_loop c s).1 in
    (
      kept,
      report-callbacks id err_cancelled Outcome.cancelled later reason out r
          ∙ sym (report-occurrences id err_cancelled Outcome.cancelled later reason out).0,
    )
step-Answers d id s (sweeps now later) k n h =
    let (r, kept) = sweep_loop-AllReject d now id s k h in
    let out = (sweep_loop now s).1 in
    (
      kept,
      report-callbacks id err_expired Outcome.expired later "" out r
          ∙ sym (report-occurrences id err_expired Outcome.expired later "" out).0,
    )

pub run-Answers :
    (d : ℕ) (id : String) (s : Actions) (cs : List Call)
    → Keyed s
    → NeverCreates id cs
    → CallableAt d (lookup id s)
    → Answers d id (lookup id (run s cs).0) (run s cs).1
unfolding run
run-Answers d id s [] k n h = (h, refl)
run-Answers d id s (c ∷ cs) k n h =
    let (h', eq) = step-Answers d id s c k (NeverCreates-head id c cs n) h in
    let (k', _) = step-Closes id s c k (NeverCreates-head id c cs n) in
    let (h'', eq') = run-Answers d id (step s c).0 cs k' (NeverCreates-tail id c cs n) h' in
    (
      h'',
      omega (
        arith,
        eq,
        eq',
        events-append id (step s c).1 (run (step s c).0 cs).1,
        callbacks-append id (step s c).1 (run (step s c).0 cs).1,
      ),
    )
