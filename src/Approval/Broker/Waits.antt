-- ===== src/Approval/Broker/Waits.antt =====
-- A waiting request is answered: exactly one message reaches it once its action is decided, and a
-- sweep after the deadline decides it.
use shell_watch.Base.{
  ℕ, ◌+◌, ◌≤◌, ◌<◌, ◌≡◌, refl, ==-refl, ap, Option, none, some, String, List, [], ◌∷◌, ◌++◌, arith,
  length, lookup, lookup-insert, string_eq,
}
use shell_watch.Approval.{
  Status, Action, CreateParams, Effect, created, resolves_sign, resolves_key, rejects, resolved,
  action_ttl,
}
use shell_watch.Approval.Store.{Actions, create}
use shell_watch.Approval.Once.{NeverCreates, step-Closes, run-Closes, run_resolves_once}
use shell_watch.Approval.History.{
  Call, sweeps, Keyed, step, run, callbacks, pend, callbacks-append, insert-Keyed,
}
use shell_watch.Approval.Sweeps.{sweep-IsSwept}
use shell_watch.Approval.Broker.{arrived, open_request}
use shell_watch.Approval.Answers.{IsCallable, CallableAt, step-Answers, run-Answers}

length-arrived : (id : String) (es : List Effect) → length (arrived id es) ≡ callbacks id es
unfolding arrived
length-arrived id [] = refl
length-arrived id (created a ∷ es) = length-arrived id es
length-arrived id (resolves_sign i r ∷ es) = ground (arith, length-arrived id es)
length-arrived id (resolves_key i ∷ es) = ground (arith, length-arrived id es)
length-arrived id (rejects i e ∷ es) = ground (arith, length-arrived id es)
length-arrived id (resolved ev ∷ es) = length-arrived id es

opened-Keyed :
    (base_url id : String) (s : Actions) (p : CreateParams) (now : ℕ)
    → Keyed s
    → Keyed (open_request base_url s p id now).0
unfolding open_request create
opened-Keyed base_url id s p now k = insert-Keyed id _ s refl k

opened-found :
    (base_url id : String) (s : Actions) (p : CreateParams) (now : ℕ)
    → lookup id (open_request base_url s p id now).0
      ≡ some (record {
        id = id;
        status = Status.pending;
        created_at = now;
        expires_at = now + action_ttl;
        params = p;
      })
unfolding open_request create
opened-found base_url id s p now = rw (lookup-insert id id _ s, ==-refl id) refl

pend_swept :
    (d at : ℕ) (o : Option Action)
    → CallableAt d o
    → d ≤ at
    → ((a : Action) → o ≡ some a → a.status ≡ Status.pending → at < a.expires_at)
    → pend o ≡ 0
pend_swept d at none c le h = refl
pend_swept d at (some a) c le h = ground (arith, h a refl)

-- For a request whose action has its callbacks, opened on a map keyed by ids, after any calls that
-- make no second action with its id: either its action is pending and no message has arrived, or it
-- is not pending and exactly one has.
pub request_answered_once :
    (base_url id : String) (s : Actions) (p : CreateParams) (now : ℕ) (cs : List Call)
    → Keyed s
    → IsCallable p
    → NeverCreates id cs
    → let (t, es) = run (open_request base_url s p id now).0 cs in
      length (arrived id es) + pend (lookup id t) ≡ 1
request_answered_once base_url id s p now cs k call n =
    let s' = (open_request base_url s p id now).0 in
    let e = opened-found base_url id s p now in
    let k' = opened-Keyed base_url id s p now k in
    let (_, cb) = run-Answers (now + action_ttl) id s' cs k' n (rw e (call, refl)) in
    let (ev, _, _) = run_resolves_once id s' cs k' n in
    omega (arith, length-arrived id (run s' cs).1, cb, ev, ap pend e)

-- For a request whose action has its callbacks, opened on a map keyed by ids: once the store is swept
-- at or after the end of its action's 60 seconds, whatever calls came before that made no second
-- action with its id, exactly one message has arrived for it and its action is not pending.
pub request_ends :
    (base_url id : String) (s : Actions) (p : CreateParams) (now : ℕ) (cs : List Call)
    (at later : ℕ)
    → Keyed s
    → IsCallable p
    → NeverCreates id cs
    → now + action_ttl ≤ at
    → let t = (run (open_request base_url s p id now).0 cs).0 in
      (length (
          arrived id
            ((run (open_request base_url s p id now).0 cs).1 ++ (step t (sweeps at later)).1))
        ≡ 1)
      × (pend (lookup id (step t (sweeps at later)).0) ≡ 0)
request_ends base_url id s p now cs at later k call n le =
    let s' = (open_request base_url s p id now).0 in
    let t = (run s' cs).0 in
    let es = (run s' cs).1 in
    let e = opened-found base_url id s p now in
    let k' = opened-Keyed base_url id s p now k in
    let (kt, (ev, _)) = run-Closes id s' cs k' n in
    let (ct, cb) = run-Answers (now + action_ttl) id s' cs k' n (rw e (call, refl)) in
    let (_, (ev', _)) = step-Closes id t (sweeps at later) kt tt in
    let (ct', cb') = step-Answers (now + action_ttl) id t (sweeps at later) kt tt ct in
    let gone =
      pend_swept (now + action_ttl) at (lookup id (step t (sweeps at later)).0) ct' le
        (unfold step in (sweep-IsSwept t at later id kt).in_time) in
    (
      omega (
        arith,
        length-arrived id (es ++ (step t (sweeps at later)).1),
        callbacks-append id es (step t (sweeps at later)).1,
        cb,
        cb',
        ev,
        ev',
        gone,
        ap pend e,
      ),
      gone,
    )
