-- ===== src/Ws/Examples.antt =====
-- Runs of a browser connection, and the theorems at concrete inputs.
use mathlib.Core.Option
use shell_watch.Base.{
  ℕ, ◌≡◌, refl, ap, sym, ◌==◌, true, false, Option, none, some, String, List, [], ◌∷◌, ◌++◌, arith,
  nat_eq, string_eq, lookup, insert, pos,
}
use shell_watch.Terminal.{open_now, ui, Session}
use shell_watch.Terminal.Buffer.{OutputBuffer, read_from}
use shell_watch.Terminal.Buffer.Stream.{Holds}
use shell_watch.Terminal.Manager.{Managed, Manager, get_session}
use shell_watch.Terminal.Manager.Access.{get, read_output_from}
use shell_watch.Ws.{Conn, new_conn, flush, enqueue, take_frame, is_attached, attach_with_catch_up}
use shell_watch.Base.{length, erase}
use shell_watch.Ws.{output, status_frame, mode, detach, close_session, closed_frame}
use shell_watch.Ws.Router.{output_frames, attach_msg, input_msg, take_control_msg, Moment}
use shell_watch.Ws.Hub.{on_output}
use shell_watch.Ws.Lives.{Act, perform, run, touches, tells}
use shell_watch.Ws.Isolation.{run_isolated}
use shell_watch.Terminal.Manager.Steps.{IsNamed}
use shell_watch.Terminal.Manager.{StatusEvent}
use shell_watch.Base.{◌∙◌, sym, ==→≡, Bool-cases, inl, inr, ltb, if◌then◌else◌}
use shell_watch.Terminal.{opening}
use shell_watch.Ws.Spectates.{missed}
use shell_watch.Ws.Streams.{screen, Shows, text, history, Carries}
use shell_watch.Ws.Closing.{close_session-Shows}
use shell_watch.Ws.Reattach.{reattach_repeats}
use shell_watch.Ws.Live.{attached_conn, watched_catches_up}
use shell_watch.Ws.Spectates.{Spectates, done, grows, pushes, takes}

abbrev sid : String
sid = "s1"

abbrev alice : String
alice = "alice"

abbrev bob : String
bob = "bob"

abbrev session : Session
session = record {
  session_id = sid;
  endpoint_id = "e1";
  account_id = alice;
  status = open_now;
  created_at = 1;
  last_activity_at = 1;
  source = ui;
  close_reason = none;
  source_ip = "";
  owner_client_id = "";
  mcp_reason = "";
  mcp_client_name = "";
  mcp_client_ver = "";
}

abbrev ring : OutputBuffer
ring = record { buf = 2 ∷ 3 ∷ []; base_offset = 1; max_size = 2 }

abbrev next_ring : OutputBuffer
next_ring = record { buf = 4 ∷ 5 ∷ []; base_offset = 3; max_size = 2 }

abbrev with_ring : OutputBuffer → Managed
with_ring b = record {
  session = session;
  has_transport = true;
  output = b;
  abandoned = false;
  can_cancel_setup = false;
}

abbrev manager_of : OutputBuffer → Manager
manager_of b = record {
  destroyed = false;
  objects = (sid, with_ring b) ∷ [];
  terminals = sid ∷ [];
  max_buffer_size = 2;
  idle_timeout = 0;
}

abbrev moment : Moment
moment = record {
  view = record {
    at_lookup = manager_of ring;
    at_read = manager_of ring;
    at_flush = manager_of ring;
    at_check = manager_of ring;
  };
  mgr = manager_of ring;
  takes = true;
  now = 5;
}

abbrev opened : StatusEvent
opened = record {
  session_id = sid;
  status = open_now;
  previous = opening;
  reason = none;
  created_at = 1;
}

-- Bob attaches to Alice's session, takes control and types, while its output grows and its status is
-- announced.
abbrev intrusion : List Act
intrusion =
    Act.routes moment (attach_msg sid none)
    ∷ Act.routes moment (take_control_msg sid)
    ∷ Act.growth (manager_of next_ring) sid
    ∷ Act.status (manager_of ring) opened
    ∷ Act.routes moment (input_msg sid (9 ∷ []))
    ∷ Act.taken
    ∷ []

abbrev owner_of : Option Session → String
owner_of none = ""
owner_of (some s) = s.account_id

foreign : (s : Session) → get_session (manager_of ring) sid ≡ some s → (s.account_id == bob) ≡ false
unfolding get_session lookup string_eq
foreign s e = let q : alice ≡ s.account_id = ap owner_of e in rw (sym q) refl

named : IsNamed (manager_of ring)
unfolding lookup
named id g e = elim (Bool-cases (sid == id)) [
  | inl q ↦
      let it : some (with_ring ring) ≡ some g = rw q at e in
      let own : sid ≡ g.session.session_id = ap session_of it in sym own ∙ ==→≡ sid id q
  | inr q ↦ let no : none ≡ some g = rw q at e in cc
]
  where
    session_of : Option Managed → String
    session_of none = ""
    session_of (some h) = h.session.session_id

run_isolated_example :
    (touches sid (run (new_conn bob) intrusion).1 ≡ false)
    × (tells sid (run (new_conn bob) intrusion).0.out ≡ false)
    × (tells sid (run (new_conn bob) intrusion).0.delivered ≡ false)
run_isolated_example =
    run_isolated sid bob intrusion
      ((foreign, foreign), ((foreign, foreign), (foreign, named, ((foreign, foreign), tt))))

holds_ring : Holds ring (1 ∷ 2 ∷ 3 ∷ [])
holds_ring = record { window = refl; total = refl; bounded = omega arith }

next_carried : Carries sid (manager_of next_ring) (1 ∷ 2 ∷ 3 ∷ 4 ∷ 5 ∷ [])
next_carried = record {
  managed = with_ring next_ring;
  there = unfold get lookup string_eq in refl;
  holds = record { window = refl; total = refl; bounded = omega arith };
}

abbrev watching : List Act
watching = Act.growth (manager_of next_ring) sid ∷ Act.push 4 ∷ Act.taken ∷ []

watched : Spectates sid (1 ∷ 2 ∷ 3 ∷ []) watching (1 ∷ 2 ∷ 3 ∷ 4 ∷ 5 ∷ [])
watched = grows (manager_of next_ring) (4 ∷ 5 ∷ []) next_carried (pushes 4 (takes done))

-- What is sent, for a client that had the first byte and asks from there.
abbrev caught_up : Conn
caught_up =
    flush (manager_of next_ring) sid
      (run (attached_conn alice sid open_now true (read_from ring (Option.map pos (some 1))))
        watching).0

still_open : caught_up.closed ≡ false
unfolding run perform on_output flush read_output_from read_from enqueue take_frame is_attached
    attach_with_catch_up lookup insert string_eq nat_eq get
still_open = refl

-- The JSON encoder, on bytes of which none above 127 stands for a rune.
abbrev ascii : List ℕ → List ℕ
ascii [] = []
ascii (b ∷ bs) = let rest = ascii bs in if ltb b 128 then b ∷ rest else 239 ∷ 191 ∷ 189 ∷ rest

-- The second ring has dropped the third byte, which the attach had read.
watched_catches_up_example : screen ascii sid (1 ∷ []) (history caught_up) ≡ 1 ∷ 2 ∷ 3 ∷ 4 ∷ 5 ∷ []
unfolding next_carried watched missed run perform on_output flush read_output_from read_from enqueue
    take_frame is_attached attach_with_catch_up lookup insert string_eq nat_eq get
watched_catches_up_example =
    watched_catches_up ascii alice sid (1 ∷ []) (1 ∷ 2 ∷ 3 ∷ []) open_now true ring (some 1)
      watching (1 ∷ 2 ∷ 3 ∷ 4 ∷ 5 ∷ []) (manager_of next_ring) holds_ring ([], refl) watched
      next_carried still_open ((λ e. refl), ((λ e. refl), tt))

-- A connection that shows the first three bytes.
abbrev shown : Conn
shown = record (new_conn alice) {
  attached = (sid, true) ∷ [];
  last_offset = (sid, 3) ∷ [];
  delivered = output sid (1 ∷ 2 ∷ 3 ∷ []) 3 false ∷ [];
}

abbrev first_three : List ℕ
first_three = 1 ∷ 2 ∷ 3 ∷ []

reattach_repeats_example :
    text sid [] (
      history (
        flush (manager_of next_ring) sid (
          attach_with_catch_up
            (flush (manager_of next_ring) sid shown)
            sid
            true
            (read_from ring (some (pos (length first_three)))).offset
            (status_frame sid open_now
              ∷ mode sid true
              ∷ output_frames sid (read_from ring (some (pos (length first_three))))))))
    ≡ (text sid [] (history shown) ++ 4 ∷ 5 ∷ []) ++ 4 ∷ 5 ∷ []
unfolding next_carried
reattach_repeats_example =
    reattach_repeats sid [] (1 ∷ 2 ∷ 3 ∷ []) (4 ∷ 5 ∷ []) open_now true true ring
      (manager_of next_ring) shown next_carried (omega arith) (λ e. cc) holds_ring
      (unfold is_attached lookup string_eq in refl) (unfold lookup string_eq in refl) refl
      (omega arith)

shown_start : Shows sid [] (1 ∷ 2 ∷ 3 ∷ 4 ∷ 5 ∷ []) shown
unfolding is_attached lookup string_eq text
shown_start = record {
  attached = refl;
  last = 3;
  noted = refl;
  within = omega arith;
  before = [];
  shown = refl;
}

ends_open : (close_session (manager_of next_ring) sid shown).closed ≡ false
unfolding close_session flush detach read_output_from read_from enqueue is_attached lookup insert
    string_eq nat_eq get erase
ends_open = refl

close_session-Shows_example :
    (front : List ℕ) × (front
        ++ text sid [] (history (close_session (manager_of next_ring) sid shown))
      ≡ 1 ∷ 2 ∷ 3 ∷ 4 ∷ 5 ∷ [])
    × (history (close_session (manager_of next_ring) sid shown)
        ≡ history (flush (manager_of next_ring) sid shown) ++ closed_frame sid ∷ [])
    × (is_attached (close_session (manager_of next_ring) sid shown) sid ≡ false)
    × (flush (manager_of ring) sid (close_session (manager_of next_ring) sid shown)
        ≡ close_session (manager_of next_ring) sid shown)
close_session-Shows_example =
    close_session-Shows sid [] (1 ∷ 2 ∷ 3 ∷ 4 ∷ 5 ∷ []) (manager_of next_ring) (manager_of ring)
      shown next_carried shown_start ends_open
