-- ===== src/Ws/Router.antt =====
-- internal/ws/router.go: what a client's message does. A message is handled by the read loop of its
-- connection; `m` is the manager as it stands at each call of it. Input goes to the transport of a
-- session, which is an argument: whether it takes the bytes.
use shell_watch.Base.{
  ℕ, ℤ, Bool, true, false, not, ◌||◌, Option, none, some, String, List, [], ◌∷◌, ◌==◌,
  if◌then◌else◌, string_eq,
}
use mathlib.Core.Logic.{ite}
use shell_watch.Terminal.{ui, Source-discrete, Session}
use shell_watch.Terminal.Buffer.{FromResult}
use shell_watch.Terminal.Manager.{Manager, get_session}
use shell_watch.Terminal.Manager.Access.{read_output_from, send_input, InputResult, written}
use shell_watch.Ws.{
  Frame, output, status_frame, mode, error_frame, session_not_found, session_not_attached,
  observer_mode, input_failed, Conn, enqueue, is_attached, has_control, attach_with_catch_up,
  detach, take_control, release_control, is_idle, flush, close_session,
}

-- What a message asks of the manager besides reads: bytes for a session's transport, a new size, and
-- a close by this client.
pub data Effect : Type 0 where
  writes : String → List ℕ → Effect
  resizes : String → ℕ → ℕ → Effect
  closes : String → Effect

pub data Message : Type 0 where
  attach_msg : String → Option ℤ → Message
  detach_msg : String → Message
  input_msg : String → List ℕ → Message
  resize_msg : String → ℕ → ℕ → Message
  close_msg : String → Message
  take_control_msg : String → Message
  release_control_msg : String → Message
  other_msg : Message

-- `sess == nil || sess.AccountID != c.accountID`
abbrev pub is_foreign : Option Session → String → Bool
is_foreign none account = true
is_foreign (some s) account = not (s.account_id == account)

-- The manager at the calls that `attach` makes on it, in order: the look-up, the catch-up read, the
-- flush, and the look-up again with the drain that may follow.
pub record AttachView : Type 0 where
  pub at_lookup : Manager
  pub at_read : Manager
  pub at_flush : Manager
  pub at_check : Manager

abbrev pub output_frames : String → FromResult → List Frame
output_frames id r = if is_idle r then [] else output id r.bytes r.offset r.reset ∷ []

-- After the guards.
unfoldable pub attach_found : AttachView → Conn → String → Session → FromResult → Conn
unfolding attach_with_catch_up flush close_session has_control enqueue
attach_found v c id s r =
    let control = ite (Source-discrete s.source ui) true false in
    let shown = control || has_control c id in
    let frames = status_frame id s.status ∷ mode id shown ∷ output_frames id r in
    let d = flush v.at_flush id (attach_with_catch_up c id control r.offset frames) in
    elim (get_session v.at_check id) [ none ↦ close_session v.at_check id d | some _ ↦ d ]

abbrev pub deny : Conn → String → Conn
deny c id = enqueue c (error_frame (session_not_found id))

unfoldable pub attach : AttachView → Conn → String → Option ℤ → Conn
unfolding attach_found enqueue
attach v c id after = elim (get_session v.at_lookup id) [
  | none ↦ deny c id
  | some s ↦
      if not (s.account_id == c.account_id)
      then deny c id
      else elim (read_output_from v.at_read id after) [
        | none ↦ deny c id
        | some r ↦ attach_found v c id s r
      ]
]

-- The answer to a call of `SendInput`.
abbrev pub input_answer : Conn → String → List ℕ → InputResult → Conn × List Effect
input_answer c id bytes written = (c, writes id bytes ∷ [])
input_answer c id bytes e = (enqueue c (error_frame (input_failed e)), [])

unfoldable pub input : Manager → Bool → ℕ → Conn → String → List ℕ → Conn × List Effect
unfolding is_attached has_control send_input enqueue
input m takes now c id bytes =
    if not (is_attached c id)
    then (enqueue c (error_frame (session_not_attached id)), [])
    else if not (has_control c id)
    then (enqueue c (error_frame observer_mode), [])
    else input_answer c id bytes (send_input m id takes now).1

unfoldable pub resize : Conn → String → ℕ → ℕ → Conn × List Effect
unfolding is_attached has_control
resize c id cols rows =
    if not (is_attached c id) || not (has_control c id)
    then (c, [])
    else (c, resizes id cols rows ∷ [])

unfoldable pub close_msg_handler : Manager → Conn → String → Conn × List Effect
unfolding enqueue
close_msg_handler m c id =
    if is_foreign (get_session m id) c.account_id then (deny c id, []) else (c, closes id ∷ [])

unfoldable pub take_control_handler : Manager → Conn → String → Conn
unfolding enqueue take_control
take_control_handler m c id =
    if is_foreign (get_session m id) c.account_id
    then deny c id
    else enqueue (take_control c id) (mode id true)

unfoldable pub release_control_handler : Conn → String → Conn
unfolding enqueue release_control is_attached
release_control_handler c id =
    if not (is_attached c id) then c else enqueue (release_control c id) (mode id false)

-- What the outside does in the course of one message.
pub record Moment : Type 0 where
  pub view : AttachView
  pub mgr : Manager
  pub takes : Bool
  pub now : ℕ

unfoldable pub route : Moment → Conn → Message → Conn × List Effect
unfolding attach detach input resize close_msg_handler take_control_handler release_control_handler
route t c (attach_msg id after) = (attach t.view c id after, [])
route t c (detach_msg id) = (detach c id, [])
route t c (input_msg id bytes) = input t.mgr t.takes t.now c id bytes
route t c (resize_msg id cols rows) = resize c id cols rows
route t c (close_msg id) = close_msg_handler t.mgr c id
route t c (take_control_msg id) = (take_control_handler t.mgr c id, [])
route t c (release_control_msg id) = (release_control_handler c id, [])
route t c other_msg = (c, [])
