-- ===== src/Ws/Lives.antt =====
-- The life of one connection: the messages of its client, the notifications of the hub and the
-- writer, in any order, each with the managers that it meets.
use shell_watch.Base.{ℕ, Bool, false, ◌||◌, String, List, [], ◌∷◌, ◌++◌, ◌==◌, string_eq}
use shell_watch.Terminal.Manager.{Manager, StatusEvent}
use shell_watch.Ws.{
  Entry, Frame, output, closed_frame, status_frame, mode, error_frame, sessions_changed, pushed,
  Conn, enqueue, take_frame, close,
}
use shell_watch.Ws.Router.{Effect, writes, resizes, closes, Message, Moment, route}
use shell_watch.Ws.Hub.{on_removed, on_status_change, on_output}

pub data Act : Type 0 where
  routes : Moment → Message → Act
  removal : Manager → String → Act
  status : Manager → StatusEvent → Act
  growth : Manager → String → Act
  push : ℕ → Act
  taken : Act
  closing : Act

unfoldable pub perform : Conn → Act → Conn × List Effect
unfolding route on_removed on_status_change on_output enqueue take_frame close
perform c (routes t msg) = route t c msg
perform c (removal m id) = (on_removed m id c, [])
perform c (status m ev) = (on_status_change m ev c, [])
perform c (growth m id) = (on_output m id c, [])
perform c (push n) = (enqueue c (pushed n), [])
perform c taken = (take_frame c, [])
perform c closing = (close c, [])

unfoldable pub run : Conn → List Act → Conn × List Effect
run c [] = (c, [])
run c (a ∷ acts) = let p = perform c a in let q = run p.0 acts in (q.0, p.1 ++ q.1)

-- The list names the session, with its status.
unfoldable pub lists : String → List Entry → Bool
lists id [] = false
lists id (e ∷ es) = e.session_id == id || lists id es

-- A frame that shows something of a session: its output, its status, who controls it, its end, or a
-- list of sessions with it.
unfoldable pub is_about : String → Frame → Bool
unfolding lists
is_about id (output i _ _ _) = i == id
is_about id (closed_frame i) = i == id
is_about id (status_frame i _) = i == id
is_about id (mode i _) = i == id
is_about id (error_frame _) = false
is_about id (sessions_changed es) = lists id es
is_about id (pushed _) = false

unfoldable pub tells : String → List Frame → Bool
tells id [] = false
tells id (f ∷ fs) = is_about id f || tells id fs

unfoldable pub touches : String → List Effect → Bool
touches id [] = false
touches id (writes i _ ∷ es) = i == id || touches id es
touches id (resizes i _ _ ∷ es) = i == id || touches id es
touches id (closes i ∷ es) = i == id || touches id es
