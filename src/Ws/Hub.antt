-- ===== src/Ws/Hub.antt =====
-- internal/ws/hub.go: the connections of all browsers, and what the manager's notifications do to
-- them. The walk of the map of connections takes the order of the list.
use shell_watch.Base.{◌||◌, String, List, [], ◌∷◌, map, ◌==◌, if◌then◌else◌, string_eq}
use shell_watch.Terminal.{closed, error, Session}
use shell_watch.Terminal.Manager.{Manager, StatusEvent, list_for_account, is_status}
use shell_watch.Ws.{
  Entry, Frame, sessions_changed, Conn, enqueue, is_attached, has_control, flush, close_session,
}

-- `onRemoved`, for one connection.
unfoldable pub on_removed : Manager → String → Conn → Conn
unfolding is_attached close_session
on_removed m id c = if is_attached c id then close_session m id c else c

abbrev pub entry_of : Conn → Session → Entry
entry_of c s = record {
  session_id = s.session_id;
  endpoint_id = s.endpoint_id;
  status = s.status;
  created_at = s.created_at;
  source = s.source;
  control = has_control c s.session_id;
}

unfoldable pub session_list : Manager → Conn → Frame
unfolding has_control list_for_account
session_list m c = sessions_changed (map (entry_of c) (list_for_account m c.account_id))

-- `onStatusChange`, for one connection.
unfoldable pub on_status_change : Manager → StatusEvent → Conn → Conn
unfolding session_list close_session enqueue
on_status_change m ev c =
    let terminal_state = is_status ev.status closed || is_status ev.status error in
    let d = if terminal_state then close_session m ev.session_id c else c in
    enqueue d (session_list m d)

-- `onOutput`, for one connection.
unfoldable pub on_output : Manager → String → Conn → Conn
unfolding is_attached flush
on_output m id c = if is_attached c id then flush m id c else c

unfoldable pub send_to_account : String → Frame → List Conn → List Conn
unfolding enqueue
send_to_account account f [] = []
send_to_account account f (c ∷ cs) =
    let rest = send_to_account account f cs in
    (if c.account_id == account then enqueue c f else c) ∷ rest
