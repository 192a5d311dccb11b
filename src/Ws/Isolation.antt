-- ===== src/Ws/Isolation.antt =====
-- A connection learns nothing of a session of another account, and does nothing to it.
use shell_watch.Base.{
  ℕ, ◌≡◌, refl, ◌∙◌, Bool, true, false, ◌||◌, not, String, List, [], ◌∷◌, ◌++◌, ◌==◌, if◌then◌else◌,
  string_eq, lookup, lookup-insert, lookup-erase, arith, Bool-cases, Option-cases, inl, inr,
}
use shell_watch.Terminal.{closed, error}
use shell_watch.Terminal.Manager.{Manager, StatusEvent, get_session, is_status}
use shell_watch.Terminal.Manager.Access.{
  send_input, InputResult, written, not_found, not_open, write_failed,
}
use shell_watch.Ws.{
  pushed, close_session, Conn, new_conn, enqueue, take_frame, close, is_attached, has_control,
  take_control, release_control,
}
use shell_watch.Ws.Router.{
  Effect, writes, resizes, closes, Message, Moment, input, resize, close_msg_handler, attach_msg,
  detach_msg, input_msg, resize_msg, close_msg, take_control_msg, release_control_msg, other_msg,
  take_control_handler, release_control_handler, route, is_foreign, input_answer,
}
use shell_watch.Ws.Hub.{on_removed, on_status_change, on_output, session_list}
use shell_watch.Ws.Flushes.{attached_apart, is_attached-none}
use shell_watch.Terminal.Manager.Steps.{IsNamed}
use shell_watch.Ws.Listed.{list_for_account_apart}
use shell_watch.Ws.Lives.{Act, perform, run, is_about, tells, touches}
use shell_watch.Ws.Untold.{
  IsForeign, Untold, differ, enqueue-Untold, take_frame-Untold, detach-Untold, flush-Untold,
  close_session-Untold, own_apart, deny-Untold, attach-Untold,
}

flip_back : (b : Bool) → not b ≡ false → b ≡ true
flip_back true h = refl
flip_back false h = absurd (differ h)

-- Nothing is done to the session, and the connection is told nothing of it.
abbrev Spared : String → String → Conn × List Effect → Type 0
Spared id account p = Untold id account p.0 × (touches id p.1 ≡ false)

-- The managers that a message meets.
abbrev pub IsForeignAt : String → String → Moment → Type 0
IsForeignAt id account t = IsForeign id account t.view.at_lookup × IsForeign id account t.mgr

-- Whatever the client asks, the session is not its own whenever a message of it is handled or a status
-- is announced; then also the manager's objects stand under their session ids.
abbrev pub StaysForeign : String → String → List Act → Type 0
StaysForeign id account [] = Unit
StaysForeign id account (Act.routes t msg ∷ acts) =
    IsForeignAt id account t × StaysForeign id account acts
StaysForeign id account (Act.status m ev ∷ acts) =
    IsForeign id account m × IsNamed m × StaysForeign id account acts
StaysForeign id account (_ ∷ acts) = StaysForeign id account acts

module _ (id account : String) where
  input_answer-Spared :
      (c : Conn) (j : String) (bytes : List ℕ) (r : InputResult)
      → (j == id) ≡ false
      → Untold id account c
      → Spared id account (input_answer c j bytes r)
  unfolding touches is_about
  input_answer-Spared c j bytes written n u = (u, rw n refl)
  input_answer-Spared c j bytes not_found n u = (enqueue-Untold id account c _ refl u, refl)
  input_answer-Spared c j bytes not_open n u = (enqueue-Untold id account c _ refl u, refl)
  input_answer-Spared c j bytes write_failed n u = (enqueue-Untold id account c _ refl u, refl)

  input-Spared :
      (m : Manager) (takes : Bool) (now : ℕ) (c : Conn) (j : String) (bytes : List ℕ)
      → Untold id account c
      → Spared id account (input m takes now c j bytes)
  unfolding input touches is_about
  input-Spared m takes now c j bytes u = elim (Bool-cases (is_attached c j)) [
    | inr a ↦ rw a (enqueue-Untold id account c _ refl u, refl)
    | inl a ↦ elim (Bool-cases (has_control c j)) [
      | inr h ↦ rw a (rw h (enqueue-Untold id account c _ refl u, refl))
      | inl h ↦ rw a (
          rw h (
            input_answer-Spared c j bytes (send_input m j takes now).1
              (attached_apart c id j a (is_attached-none c id u.detached)) u))
    ]
  ]

  resize-Spared :
      (c : Conn) (j : String) (cols rows : ℕ)
      → Untold id account c
      → Spared id account (resize c j cols rows)
  unfolding resize touches
  resize-Spared c j cols rows u = elim (Bool-cases (is_attached c j)) [
    | inr a ↦ rw a (u, refl)
    | inl a ↦ elim (Bool-cases (has_control c j)) [
      | inr h ↦ rw a (rw h (u, refl))
      | inl h ↦
          rw a (rw h (u, rw (attached_apart c id j a (is_attached-none c id u.detached)) refl))
    ]
  ]

  -- A session that passes the owner test is another one.
  owned_apart :
      (m : Manager) (c : Conn) (j : String)
      → IsForeign id account m
      → Untold id account c
      → is_foreign (get_session m j) c.account_id ≡ false
      → (j == id) ≡ false
  owned_apart m c j f u e = elim (Option-cases (get_session m j)) [
    | inl g ↦ absurd (differ (rw g at e))
    | inr (s, g) ↦ own_apart id account m j s f g (rw u.owner at (flip_back _ (rw g at e)))
  ]

  close-Spared :
      (m : Manager) (c : Conn) (j : String)
      → IsForeign id account m
      → Untold id account c
      → Spared id account (close_msg_handler m c j)
  unfolding close_msg_handler touches
  close-Spared m c j f u = elim (Bool-cases (is_foreign (get_session m j) c.account_id)) [
    | inl e ↦ rw e (deny-Untold id account c j u, refl)
    | inr e ↦ rw e (u, rw (owned_apart m c j f u e) refl)
  ]

  take_control-Untold :
      (m : Manager) (c : Conn) (j : String)
      → IsForeign id account m
      → Untold id account c
      → Untold id account (take_control_handler m c j)
  unfolding take_control_handler take_control is_about
  take_control-Untold m c j f u = elim (Bool-cases (is_foreign (get_session m j) c.account_id)) [
    | inl e ↦ rw e (deny-Untold id account c j u)
    | inr e ↦ rw e (
        enqueue-Untold id account (take_control c j) _ (owned_apart m c j f u e) (record {
          owner = u.owner;
          detached = u.detached;
          uncontrolled =
              lookup-insert id j true c.controlled ∙ rw (owned_apart m c j f u e) u.uncontrolled;
          queued = u.queued;
          seen = u.seen;
        }))
  ]

  release_control-Untold :
      (c : Conn) (j : String)
      → Untold id account c
      → Untold id account (release_control_handler c j)
  unfolding release_control_handler release_control is_about
  release_control-Untold c j u = elim (Bool-cases (is_attached c j)) [
    | inr a ↦ rw a u
    | inl a ↦ rw a (
        enqueue-Untold id account (release_control c j) _
          (attached_apart c id j a (is_attached-none c id u.detached))
          (record {
            owner = u.owner;
            detached = u.detached;
            uncontrolled = lookup-erase id j c.controlled ∙ ground (arith, u.uncontrolled);
            queued = u.queued;
            seen = u.seen;
          }))
  ]

  list-Untold :
      (m : Manager) (c : Conn)
      → IsForeign id account m
      → IsNamed m
      → Untold id account c
      → Untold id account (enqueue c (session_list m c))
  unfolding session_list is_about
  list-Untold m c f n u =
      enqueue-Untold id account c (session_list m c)
        (rw u.owner (list_for_account_apart id account m c n f)) u

  status-Untold :
      (m : Manager) (ev : StatusEvent) (c : Conn)
      → IsForeign id account m
      → IsNamed m
      → Untold id account c
      → Untold id account (on_status_change m ev c)
  unfolding on_status_change
  status-Untold m ev c f n u =
      elim (Bool-cases (is_status ev.status closed || is_status ev.status error)) [
        | inr e ↦ rw e (list-Untold m c f n u)
        | inl e ↦ rw e (
            list-Untold m (close_session m ev.session_id c) f n
              (close_session-Untold id account m c ev.session_id u))
      ]

  either-Untold :
      (b : Bool) (x y : Conn)
      → Untold id account x
      → Untold id account y
      → Untold id account (if b then x else y)
  either-Untold true x y u v = u
  either-Untold false x y u v = v

  removal-Untold :
      (m : Manager) (j : String) (c : Conn)
      → Untold id account c
      → Untold id account (on_removed m j c)
  unfolding on_removed
  removal-Untold m j c u =
      either-Untold (is_attached c j) _ c (close_session-Untold id account m c j u) u

  growth-Untold :
      (m : Manager) (j : String) (c : Conn)
      → Untold id account c
      → Untold id account (on_output m j c)
  unfolding on_output
  growth-Untold m j c u = either-Untold (is_attached c j) _ c (flush-Untold id account m c j u) u

  push-Untold : (c : Conn) (n : ℕ) → Untold id account c → Untold id account (enqueue c (pushed n))
  unfolding is_about
  push-Untold c n u = enqueue-Untold id account c (pushed n) refl u

  close-Untold : (c : Conn) → Untold id account c → Untold id account (close c)
  unfolding close
  close-Untold c u = record {
    owner = u.owner;
    detached = u.detached;
    uncontrolled = u.uncontrolled;
    queued = u.queued;
    seen = u.seen;
  }

  route-Spared :
      (t : Moment) (c : Conn) (msg : Message)
      → IsForeignAt id account t
      → Untold id account c
      → Spared id account (route t c msg)
  unfolding route touches
  route-Spared t c (attach_msg j after) f u =
      (attach-Untold id account t.view c j after f.0 u, refl)
  route-Spared t c (detach_msg j) f u = (detach-Untold id account c j u, refl)
  route-Spared t c (input_msg j bytes) f u = input-Spared t.mgr t.takes t.now c j bytes u
  route-Spared t c (resize_msg j cols rows) f u = resize-Spared c j cols rows u
  route-Spared t c (close_msg j) f u = close-Spared t.mgr c j f.1 u
  route-Spared t c (take_control_msg j) f u = (take_control-Untold t.mgr c j f.1 u, refl)
  route-Spared t c (release_control_msg j) f u = (release_control-Untold c j u, refl)
  route-Spared t c other_msg f u = (u, refl)

  touches-append : (es fs : List Effect) → touches id (es ++ fs) ≡ (touches id es || touches id fs)
  unfolding touches
  touches-append [] fs = refl
  touches-append (writes i b ∷ es) fs = ground (arith, touches-append es fs)
  touches-append (resizes i a b ∷ es) fs = ground (arith, touches-append es fs)
  touches-append (closes i ∷ es) fs = ground (arith, touches-append es fs)

  join-Spared :
      (c : Conn) (es fs : List Effect)
      → Untold id account c
      → touches id es ≡ false
      → touches id fs ≡ false
      → Spared id account (c, es ++ fs)
  join-Spared c es fs u h k = (u, rw (touches-append es fs, h, k) refl)

  run-Spared :
      (c : Conn) (acts : List Act)
      → StaysForeign id account acts
      → Untold id account c
      → Spared id account (run c acts)
  unfolding run perform
  run-Spared c [] f u = (u, unfold touches in refl)
  run-Spared c (Act.routes t msg ∷ acts) f u =
      let p = route-Spared t c msg f.0 u in
      let q = run-Spared (route t c msg).0 acts f.1 p.0 in join-Spared _ _ _ q.0 p.1 q.1
  run-Spared c (Act.removal m j ∷ acts) f u =
      run-Spared (on_removed m j c) acts f (removal-Untold m j c u)
  run-Spared c (Act.status m ev ∷ acts) f u =
      run-Spared (on_status_change m ev c) acts f.2 (status-Untold m ev c f.0 f.1 u)
  run-Spared c (Act.growth m j ∷ acts) f u =
      run-Spared (on_output m j c) acts f (growth-Untold m j c u)
  run-Spared c (Act.push n ∷ acts) f u =
      run-Spared (enqueue c (pushed n)) acts f (push-Untold c n u)
  run-Spared c (Act.taken ∷ acts) f u =
      run-Spared (take_frame c) acts f (take_frame-Untold id account c u)
  run-Spared c (Act.closing ∷ acts) f u = run-Spared (close c) acts f (close-Untold c u)

-- A browser connection and a session of another account: whatever messages the client sends, in
-- whatever order the hub's notifications and the writer come between them, and whatever the
-- managers are that they meet, as long as the session is not the account's own whenever a message
-- is handled or a status is announced, and the manager then has its objects under their session ids. No input, resize or close of that session comes from the connection, and no frame
-- with output, status, mode or end of the session, and no list of sessions with it, is queued or delivered.
pub run_isolated :
    (id account : String) (acts : List Act)
    → StaysForeign id account acts
    → (touches id (run (new_conn account) acts).1 ≡ false)
      × (tells id (run (new_conn account) acts).0.out ≡ false)
      × (tells id (run (new_conn account) acts).0.delivered ≡ false)
run_isolated id account acts f =
    let p = run-Spared id account (new_conn account) acts f fresh in (p.1, p.0.queued, p.0.seen)
  where
    fresh : Untold id account (new_conn account)
    fresh =
        unfold lookup tells in
        record { owner = refl; detached = refl; uncontrolled = refl; queued = refl; seen = refl }
