-- ===== src/Sshx/HostKey/FailClosed.antt =====
-- A connection fails closed: what its steps keep, and what the check at its end then says.
use shell_watch.Base.{
  ℕ, ◌≡◌, refl, ◌⊎◌, inl, inr, ◌≢◌, Bool, true, false, not, ◌&&◌, Option, none, some, String, List,
  [], ◌∷◌, arith, ◌==◌, if◌then◌else◌, string_eq, Bool-cases,
}
use shell_watch.Sshx.Pins.{bytes_eq}
use shell_watch.Sshx.HostKey.{
  ObservedHostKey, PinnedHostKey, PinRequest, HostKeyStatus, unseen, new, known,
  HostKeyStatus-discrete, HostKeyState, is_status, observe, mark_pinned, HostKeyMismatchError,
  is_match, host_key_callback, with_host_key_context, mismatch, request_of, pin_after_approval,
  may_establish,
}
use shell_watch.Sshx.HostKey.Connections.{
  Connection, Step, after_context, answer, is_refusal, perform, run, IsAccepted, IsVerified,
  AllObserved, IsSound, start, exchanges, asks, answers,
}

start-IsSound :
    (id host : String) (port : ℕ) (pin : Option PinnedHostKey) → IsSound id pin (start host port)
start-IsSound id host port pin = record { verified = λ h. cc; provisional = tt; approved = λ h. cc }

-- While no key was seen nothing waits and nothing is pinned.
AllObserved-unseen :
    (s s' : HostKeyState) (ks : List (Option ObservedHostKey))
    → s.status ≡ unseen
    → AllObserved s ks
    → AllObserved s' ks
AllObserved-unseen s s' [] u a = tt
AllObserved-unseen s s' (none ∷ ks) u a = AllObserved-unseen s s' ks u a
AllObserved-unseen s s' (some k ∷ ks) u a = absurd (a.0 u)

AllObserved-pinned :
    (s : HostKeyState) (ks : List (Option ObservedHostKey))
    → AllObserved s ks
    → AllObserved (record s { pinned = true }) ks
AllObserved-pinned s [] a = tt
AllObserved-pinned s (none ∷ ks) a = AllObserved-pinned s ks a
AllObserved-pinned s (some k ∷ ks) (u, e, a) = (u, e, AllObserved-pinned s ks a)

IsAccepted-pinned :
    (id : String) (s : HostKeyState) (rs : List PinRequest)
    → IsAccepted id s rs
    → IsAccepted id (record s { pinned = true }) rs
IsAccepted-pinned id s [] a = a
IsAccepted-pinned id s (r ∷ rs) (inl a) = inl a
IsAccepted-pinned id s (r ∷ rs) (inr a) = inr (IsAccepted-pinned id s rs a)

observe-IsSound :
    (id : String) (pin : Option PinnedHostKey) (c : Connection) (st : HostKeyStatus)
    (k : ObservedHostKey)
    → c.state.status ≡ unseen
    → (st ≡ known → IsVerified pin k)
    → IsSound id pin c
    → IsSound id pin (record c { state = observe c.state st k; refused = false })
unfolding observe
observe-IsSound id pin c st k u v w = record {
  verified = v;
  provisional = AllObserved-unseen c.state (observe c.state st k) c.waiting u w.provisional;
  approved = λ h. absurd ((w.approved h).0 u);
}

same-IsSound :
    (id : String) (pin : Option PinnedHostKey) (c : Connection) (b : Bool)
    → IsSound id pin c
    → IsSound id pin (record c { refused = b })
same-IsSound id pin c b w = record {
  verified = w.verified;
  provisional = w.provisional;
  approved = w.approved;
}

is_unseen : (st : HostKeyStatus) → is_status st unseen ≡ true → st ≡ unseen
is_unseen st h = unfold HostKeyStatus-discrete in ground arith

callback-IsSound :
    (id : String) (pin : Option PinnedHostKey) (c : Connection) (k : ObservedHostKey)
    → IsSound id pin c
    → let (state, e) = host_key_callback id pin c.state k in
      IsSound id pin (record c { state = state; refused = is_refusal e })
unfolding host_key_callback
callback-IsSound id pin c k w = elim (Bool-cases (is_status c.state.status unseen)) [
  | inr seen ↦ elim (Bool-cases (c.state.observed.key == k.key)) [
    | inl same ↦ rw seen (rw same (same-IsSound id pin c false w))
    | inr other ↦ rw seen (rw other (same-IsSound id pin c true w))
  ]
  | inl first ↦ rw first (first-IsSound pin (is_unseen c.state.status first) w)
]
  where
    first-IsSound :
        (pin : Option PinnedHostKey)
        → c.state.status ≡ unseen
        → IsSound id pin c
        → (let (state, e) : HostKeyState × Option HostKeyMismatchError = elim pin [
          | none ↦ (observe c.state new k, none)
          | some p ↦
              if not (is_match p k)
              then (c.state, some (mismatch id k p.fingerprint))
              else (observe c.state known k, none)
        ] in
            IsSound id pin (record c { state = state; refused = is_refusal e }))
    first-IsSound none u w = observe-IsSound id none c new k u (λ h. cc) w
    first-IsSound (some p) u w = elim (Bool-cases (is_match p k)) [
      | inl matches ↦ rw matches (observe-IsSound id (some p) c known k u (λ _. matches) w)
      | inr differs ↦ rw differs (same-IsSound id (some p) c true w)
    ]

asks-IsSound :
    (id : String) (pin : Option PinnedHostKey) (c : Connection)
    → IsSound id pin c
    → IsSound id pin (after_context c (with_host_key_context c.state))
unfolding with_host_key_context
asks-IsSound id pin c w = elim (Bool-cases (is_status c.state.status unseen)) [
  | inl u ↦
      rw u (record { verified = w.verified; provisional = w.provisional; approved = w.approved })
  | inr seen ↦ elim (Bool-cases (is_status c.state.status new && not c.state.pinned)) [
    | inr trusted ↦ rw seen (
        rw trusted
          (record { verified = w.verified; provisional = w.provisional; approved = w.approved }))
    | inl first ↦ rw seen (
        rw first (record {
          verified = w.verified;
          provisional = (unfold HostKeyStatus-discrete in ground arith, refl, w.provisional);
          approved = w.approved;
        }))
  ]
]

answer-IsSound :
    (id : String) (pin : Option PinnedHostKey) (c : Connection) (store : PinRequest → Bool)
    (by action : String) (ks : List (Option ObservedHostKey))
    → AllObserved c.state ks
    → IsSound id pin c
    → IsSound id pin (answer c id store by action ks)
unfolding pin_after_approval mark_pinned
answer-IsSound id pin c store by action [] a w = w
answer-IsSound id pin c store by action (none ∷ ks) a w = record {
  verified = w.verified;
  provisional = a;
  approved = w.approved;
}
answer-IsSound id pin c store by action (some k ∷ ks) (u, e, a) w =
    elim (Bool-cases (store (request_of c.state id k by action))) [
      | inr refuses ↦
          rw refuses (record { verified = w.verified; provisional = a; approved = w.approved })
      | inl accepts ↦ rw accepts (record {
        verified = w.verified;
        provisional = AllObserved-pinned c.state ks a;
        approved = λ _. (u, inl (refl, e, refl, refl));
      })
    ]

perform-IsSound :
    (id : String) (pin : Option PinnedHostKey) (c : Connection) (s : Step)
    → IsSound id pin c
    → IsSound id pin (perform id pin c s)
unfolding perform
perform-IsSound id pin c (exchanges key) w = elim (Bool-cases c.refused) [
  | inl over ↦ rw over (same-IsSound id pin c true w)
  | inr going ↦ rw going (callback-IsSound id pin c key w)
]
perform-IsSound id pin c asks w = asks-IsSound id pin c w
perform-IsSound id pin c (answers store by action) w =
    answer-IsSound id pin c store by action c.waiting w.provisional w

run-IsSound :
    (id : String) (pin : Option PinnedHostKey) (c : Connection) (ss : List Step)
    → IsSound id pin c
    → IsSound id pin (run id pin c ss)
unfolding run
run-IsSound id pin c [] w = w
run-IsSound id pin c (s ∷ ss) w =
    run-IsSound id pin (perform id pin c s) ss (perform-IsSound id pin c s w)

-- However key exchanges, requests for approval and answers follow each other, and whatever the store
-- accepts, a connection that saw a host key and passes the check before its session is handed out
-- either saw a key that matches the pin looked up before the dial, or had a pin of the very key
-- that it saw accepted, for its endpoint at the address that it dialed.
pub run_fails_closed :
    (id host : String) (port : ℕ) (pin : Option PinnedHostKey) (ss : List Step)
    → may_establish (run id pin (start host port) ss).state ≡ true
    → (run id pin (start host port) ss).state.status ≢ unseen
    → let c = run id pin (start host port) ss in
      IsVerified pin c.state.observed ⊎ IsAccepted id c.state c.accepted
unfolding may_establish
run_fails_closed id host port pin ss ok seen =
    let c = run id pin (start host port) ss in
    let w = run-IsSound id pin (start host port) ss (start-IsSound id host port pin) in
    elim (Bool-cases c.state.pinned) [
      | inl p ↦ inr (w.approved p).1
      | inr p ↦ inl (w.verified (unfold HostKeyStatus-discrete in ground arith))
    ]
