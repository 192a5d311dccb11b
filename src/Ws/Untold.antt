-- ===== src/Ws/Untold.antt =====
-- That a connection was told nothing of a session is kept by its operations.
use shell_watch.Base.{
  ℕ, ◌≡◌, refl, sym, ap, ◌∙◌, Bool, true, false, ◌||◌, Option, none, some, String, List, [], ◌∷◌,
  ◌++◌, ◌==◌, string_eq, lookup, lookup-insert, lookup-erase, arith, Bool-cases, Option-cases, inl,
  inr, insert, ℤ, ==→≡,
}
use shell_watch.Terminal.{Session}
use shell_watch.Terminal.Buffer.{FromResult}
use shell_watch.Terminal.Manager.{Manager, get_session}
use shell_watch.Terminal.Manager.Access.{read_output_from}
use shell_watch.Ws.{
  Frame, output, closed_frame, status_frame, mode, Conn, enqueue, take_frame, is_attached,
  attach_with_catch_up, detach, flush, close_session, enqueue_all,
}
use shell_watch.Ws.Router.{AttachView, attach, attach_found, deny, output_frames}
use shell_watch.Ws.Flushes.{List-cases, flush_cases, attached_apart, is_attached-none}
use shell_watch.Ws.Lives.{is_about, tells}

pub differ : true ≡ false → ⊥
differ e = cc

-- If the session is there, it belongs to another account.
abbrev pub IsForeign : String → String → Manager → Type 0
IsForeign id account m =
    (s : Session) → get_session m id ≡ some s → (s.account_id == account) ≡ false

pub record Untold (id account : String) (c : Conn) : Type 0 where
  pub owner : c.account_id ≡ account
  pub detached : lookup id c.attached ≡ none
  pub uncontrolled : lookup id c.controlled ≡ none
  pub queued : tells id c.out ≡ false
  pub seen : tells id c.delivered ≡ false

pub tells-append :
    (id : String) (fs gs : List Frame) → tells id (fs ++ gs) ≡ (tells id fs || tells id gs)
unfolding tells
tells-append id [] gs = refl
tells-append id (f ∷ fs) gs = ground (arith, tells-append id fs gs)

pub tells_one :
    (id : String) (fs : List Frame) (f : Frame)
    → tells id fs ≡ false
    → is_about id f ≡ false
    → tells id (fs ++ f ∷ []) ≡ false
unfolding tells
tells_one id fs f h e = rw (tells-append id fs (f ∷ []), h, e) refl

module _ (id account : String) where
  pub enqueue-Untold :
      (c : Conn) (f : Frame)
      → is_about id f ≡ false
      → Untold id account c
      → Untold id account (enqueue c f)
  unfolding enqueue
  enqueue-Untold c f e u = ground (arith, tells_one id c.out f)

  pub take_frame-Untold : (c : Conn) → Untold id account c → Untold id account (take_frame c)
  unfolding take_frame tells
  take_frame-Untold c u = elim (List-cases c.out) [
    | inl e ↦ rw (e, take_frame) u
    | inr (f, fs, e) ↦
        rw (e, take_frame)
          (record {
            owner = u.owner;
            detached = u.detached;
            uncontrolled = u.uncontrolled;
            queued = (parts f fs e).1;
            seen = tells_one id c.delivered f u.seen (parts f fs e).0;
          })
  ]
    where
      parts :
          (f : Frame) (fs : List Frame)
          → c.out ≡ f ∷ fs
          → (is_about id f ≡ false) × (tells id fs ≡ false)
      parts f fs e = ground (arith, u.queued, ap (tells id) e)

  pub detach-Untold : (c : Conn) (j : String) → Untold id account c → Untold id account (detach c j)
  unfolding detach
  detach-Untold c j u = ground (arith, lookup-erase id j c.attached, lookup-erase id j c.controlled)

  -- A flush of another session tells of that session only; one of this session finds it detached.
  pub flush-Untold :
      (m : Manager) (c : Conn) (j : String) → Untold id account c → Untold id account (flush m j c)
  unfolding is_about
  flush-Untold m c j u = elim (flush_cases m j c) [
    | inl e ↦ rw e u
    | inr (r, s) ↦ rw s.gives (
        enqueue-Untold (record c { last_offset = insert j r.offset c.last_offset })
          (output j r.bytes r.offset r.reset)
          (attached_apart c id j s.to (is_attached-none c id u.detached))
          (record {
            owner = u.owner;
            detached = u.detached;
            uncontrolled = u.uncontrolled;
            queued = u.queued;
            seen = u.seen;
          }))
  ]

  -- A session that is closed for this connection was attached to it.
  pub close_session-Untold :
      (m : Manager) (c : Conn) (j : String)
      → Untold id account c
      → Untold id account (close_session m j c)
  unfolding close_session is_about
  close_session-Untold m c j u =
      let v : Untold id account (flush m j c) = flush-Untold m c j u in
      elim (Bool-cases (is_attached (flush m j c) j)) [
        | inr a ↦ rw a (detach-Untold (flush m j c) j v)
        | inl a ↦ rw a (
            enqueue-Untold (detach (flush m j c) j) (closed_frame j)
              (attached_apart (flush m j c) id j a (is_attached-none (flush m j c) id v.detached))
              (detach-Untold (flush m j c) j v))
      ]

  pub enqueue_all-Untold :
      (c : Conn) (fs : List Frame)
      → tells id fs ≡ false
      → Untold id account c
      → Untold id account (enqueue_all c fs)
  unfolding tells
  enqueue_all-Untold c [] h u = u
  enqueue_all-Untold c (f ∷ fs) h u =
      enqueue_all-Untold (enqueue c f) fs (ground arith) (enqueue-Untold c f (ground arith) u)

  pub attach_with_catch_up-Untold :
      (c : Conn) (j : String) (control : Bool) (offset : ℕ) (fs : List Frame)
      → (j == id) ≡ false
      → tells id fs ≡ false
      → Untold id account c
      → Untold id account (attach_with_catch_up c j control offset fs)
  unfolding attach_with_catch_up
  attach_with_catch_up-Untold c j control offset fs n h u = enqueue_all-Untold _ fs h (record {
    owner = u.owner;
    detached = lookup-insert id j true c.attached ∙ rw n u.detached;
    uncontrolled = ground (arith, lookup-insert id j true c.controlled);
    queued = u.queued;
    seen = u.seen;
  })

  pub frames_apart :
      (j : String) (s : Session) (shown : Bool) (r : FromResult)
      → (j == id) ≡ false
      → tells id (status_frame j s.status ∷ mode j shown ∷ output_frames j r) ≡ false
  unfolding tells is_about
  frames_apart j s shown r n = ground arith

  pub attach_found-Untold :
      (v : AttachView) (c : Conn) (j : String) (s : Session) (r : FromResult)
      → (j == id) ≡ false
      → Untold id account c
      → Untold id account (attach_found v c j s r)
  unfolding attach_found
  attach_found-Untold v c j s r n u =
      let d =
        flush-Untold v.at_flush _ j
          (attach_with_catch_up-Untold c j _ r.offset _ n (frames_apart j s _ r n) u) in
      elim (Option-cases (get_session v.at_check j)) [
        | inl e ↦ rw (e, attach_found) (close_session-Untold v.at_check _ j d)
        | inr (x, e) ↦ rw (e, attach_found) d
      ]

  -- A session of this account is not the foreign one.
  pub own_apart :
      (m : Manager) (j : String) (s : Session)
      → IsForeign id account m
      → get_session m j ≡ some s
      → (s.account_id == account) ≡ true
      → (j == id) ≡ false
  own_apart m j s f g o = elim (Bool-cases (j == id)) [
    | inr n ↦ n
    | inl e ↦ absurd (differ (sym o ∙ f s (rw (==→≡ j id e) at g)))
  ]

  pub deny-Untold : (c : Conn) (j : String) → Untold id account c → Untold id account (deny c j)
  unfolding is_about
  deny-Untold c j u = enqueue-Untold c _ refl u

  pub attach-Untold :
      (v : AttachView) (c : Conn) (j : String) (after : Option ℤ)
      → IsForeign id account v.at_lookup
      → Untold id account c
      → Untold id account (attach v c j after)
  unfolding attach
  attach-Untold v c j after f u = elim (Option-cases (get_session v.at_lookup j)) [
    | inl e ↦ rw (e, attach) (deny-Untold c j u)
    | inr (s, e) ↦ elim (Bool-cases (s.account_id == c.account_id)) [
      | inr o ↦ rw (e, attach) (rw o (deny-Untold c j u))
      | inl o ↦ elim (Option-cases (read_output_from v.at_read j after)) [
        | inl n ↦ rw (e, attach) (rw (o, n, attach) (deny-Untold c j u))
        | inr (r, n) ↦
            rw (e, attach)
              (rw (o, n, attach)
                (attach_found-Untold v c j s r (own_apart v.at_lookup j s f e (rw u.owner at o)) u))
      ]
    ]
  ]
