-- ===== src/Ws/Closing.antt =====
-- The end of a session on a connection that shows it.
use shell_watch.Base.{
  ℕ, ◌≡◌, refl, sym, ap, ◌∙◌, true, false, none, String, List, [], ◌∷◌, ◌++◌, ==-refl, string_eq,
  lookup, lookup-erase, arith, take_all, inl, inr,
}
use shell_watch.Terminal.Manager.{Manager}
use shell_watch.Ws.{
  Frame, closed_frame, Conn, enqueue, is_attached, detach, flush, close_session, is_set,
}
use shell_watch.Ws.Flushes.{flush_cases, flush_detached, is_attached-none}
use shell_watch.Ws.Streams.{
  text, history, Carries, Shows, enqueue_open, enqueue_attached, text-append,
}
use shell_watch.Ws.CatchUp.{flush_catches_up}

close_session_attached :
    (m : Manager) (id : String) (c : Conn)
    → is_attached (flush m id c) id ≡ true
    → close_session m id c ≡ enqueue (detach (flush m id c) id) (closed_frame id)
unfolding close_session
close_session_attached m id c a = rw a refl

detached_after :
    (c : Conn) (id : String) (f : Frame) → lookup id (enqueue (detach c id) f).attached ≡ none
unfolding detach
detached_after c id f =
    ap (lookup id) (enqueue_attached (detach c id) f).0
    ∙ lookup-erase id id c.attached
    ∙ rw (==-refl id) refl

flush-attached :
    (m : Manager) (id : String) (c : Conn) → is_attached (flush m id c) id ≡ is_attached c id
unfolding is_attached
flush-attached m id c = elim (flush_cases m id c) [
  | inl e ↦ ap (λ (x : Conn). is_set (lookup id x.attached)) e
  | inr (r, s) ↦
      ap (λ (x : Conn). is_set (lookup id x.attached)) s.gives
      ∙ ap (λ x. is_set (lookup id x)) (enqueue_attached _ _).0
]

-- A connection that shows a session's stream up to some point is told that the session has ended,
-- while the manager still has the session. If the connection has not overflowed, the output that
-- was missing comes first, so that the text ends where the stream ends; then comes the end, once.
-- The session is detached, and no later flush of it sends anything.
pub close_session-Shows :
    (id : String) (acc s : List ℕ) (m later : Manager) (c : Conn)
    → Carries id m s
    → Shows id acc s c
    → (close_session m id c).closed ≡ false
    → (front : List ℕ) × (front ++ text id acc (history (close_session m id c)) ≡ s)
      × (history (close_session m id c) ≡ history (flush m id c) ++ closed_frame id ∷ [])
      × (is_attached (close_session m id c) id ≡ false)
      × (flush later id (close_session m id c) ≡ close_session m id c)
unfolding detach text
close_session-Shows id acc s m later c w h o =
    let d : Conn = flush m id c in
    let is : close_session m id c ≡ enqueue (detach d id) (closed_frame id) =
      close_session_attached m id c (flush-attached m id c ∙ h.attached) in
    let e =
      enqueue_open (detach d id) (closed_frame id) (ap (λ (x : Conn). x.closed) (sym is) ∙ o) in
    let last = flush_catches_up id acc s m c w h e.0 in
    let gone : is_attached (close_session m id c) id ≡ false =
      ap (λ (x : Conn). is_attached x id) is
      ∙ is_attached-none _ id (detached_after d id (closed_frame id)) in
    let said : history (close_session m id c) ≡ history d ++ closed_frame id ∷ [] =
      ap history is ∙ e.1 in
    (
      last.0.before,
      ap (λ x. last.0.before ++ text id acc x) said
          ∙ ap (λ x. last.0.before ++ x) (text-append id acc (history d) (closed_frame id ∷ []))
          ∙ last.0.shown
          ∙ take_all last.0.last s (omega (arith, last.1)),
      said,
      gone,
      flush_detached later id (close_session m id c) gone,
    )
