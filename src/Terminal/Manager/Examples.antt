-- ===== src/Terminal/Manager/Examples.antt =====
-- Tests of the registry, and instances of its theorems.
use shell_watch.Base.{
  ◌+◌, ◌≤◌, ◌≡◌, refl, ap, true, false, none, some, List, [], ◌∷◌, arith, ◌==◌, lookup, insert,
  nat_eq, contains, string_eq, Bool-cases, inl, inr, ◌≢◌, ==→≡, ◌∙◌, sym, ◌&&◌,
}
use shell_watch.Terminal.{
  opening, open_now, closed, Status-discrete, ui, Source-discrete, CloseReason, client_ui, Session,
  Trigger, EndpointRef,
}
use shell_watch.Terminal.Buffer.{new_output_buffer}
use shell_watch.Terminal.Manager.{
  Managed, Manager, refused, registered, shutting_down, register, is_status, mark_destroyed,
}
use shell_watch.Terminal.Manager.Steps.{
  Section, opens, finishes, begins_closing, removes, pumps, run, IsNamed, chain,
}
use shell_watch.Terminal.Manager.Lifecycle.{entries}
use shell_watch.Terminal.{Status}
use shell_watch.Terminal.Manager.Delivery.{
  Act, runs, hands_over, board, act_all, sections, deliveries_once,
}
use shell_watch.Terminal.Manager.Hooks.{removals, held, run_removes_once}
use shell_watch.Terminal.Manager.Closing.{bytes_in, hung_up, close, finish_create, opened}
use shell_watch.Terminal.Manager.Closing.Ends.{IsClosedDown, close-IsClosedDown}
use shell_watch.Terminal.Manager.Closing.Creates.{finish_create-ends}

abbrev no_sessions : Manager
no_sessions = record {
  destroyed = false;
  objects = [];
  terminals = [];
  max_buffer_size = 8;
  idle_timeout = 1000;
}

abbrev endpoint : EndpointRef
endpoint = record { id = "e1"; account_id = "acc" }

abbrev trigger : Trigger
trigger = record {
  kind = ui;
  source_ip = "10.0.0.1";
  reason = "";
  owner_client_id = "";
  mcp_client_name = "";
  mcp_client_ver = "";
}

abbrev session : Session
session = record {
  session_id = "s1";
  endpoint_id = "e1";
  account_id = "acc";
  status = opening;
  created_at = 5;
  last_activity_at = 5;
  source = ui;
  close_reason = none;
  source_ip = "10.0.0.1";
  owner_client_id = "";
  mcp_reason = "";
  mcp_client_name = "";
  mcp_client_ver = "";
}

abbrev managed : Managed
managed = record {
  session = session;
  has_transport = false;
  output = record { buf = []; base_offset = 0; max_size = 8 };
  abandoned = false;
  can_cancel_setup = true;
}

abbrev connecting : Manager
connecting = record no_sessions { objects = ("s1", managed) ∷ []; terminals = "s1" ∷ [] }

abbrev live : Managed
live = record managed { session = record session { status = open_now }; has_transport = true }

abbrev connected : Manager
connected = record no_sessions { objects = ("s1", live) ∷ []; terminals = "s1" ∷ [] }

register_first : register no_sessions endpoint "acc" trigger "s1" 5 ≡ registered connecting
unfolding register string_eq nat_eq insert new_output_buffer Source-discrete
register_first = refl

register_after_shutdown :
    register (mark_destroyed no_sessions).0 endpoint "acc" trigger "s1" 5 ≡ refused shutting_down
unfolding register string_eq mark_destroyed
register_after_shutdown = refl

named :
    (g0 : Managed)
    → g0.session.session_id ≡ "s1"
    → IsNamed (record no_sessions { objects = ("s1", g0) ∷ []; terminals = "s1" ∷ [] })
unfolding lookup
named g0 same id g h = elim (Bool-cases ("s1" == id)) [
  | inl e ↦
      let found : g0 ≡ g = ground arith in
      sym (ap (λ (o : Managed). o.session.session_id) found) ∙ (same ∙ ==→≡ "s1" id e)
  | inr e ↦ absurd (ground arith)
]

connecting_found : lookup "s1" connecting.objects ≡ some managed
unfolding lookup string_eq
connecting_found = refl

connected_found : lookup "s1" connected.objects ≡ some live
unfolding lookup string_eq
connected_found = refl

abbrev schedule : List Section
schedule =
    opens "s1"
    ∷ pumps "s1" (104 ∷ 105 ∷ []) 7
    ∷ begins_closing "s1" (some client_ui)
    ∷ finishes "s1" none
    ∷ finishes "s1" none
    ∷ removes "s1"
    ∷ removes "s1"
    ∷ []

-- The close's goroutine hands its event over after that of the pump.
abbrev late_delivery : List Act
late_delivery =
    runs (opens "s1")
    ∷ hands_over 0
    ∷ runs (begins_closing "s1" (some client_ui))
    ∷ runs (finishes "s1" none)
    ∷ hands_over 1
    ∷ hands_over 5
    ∷ runs (removes "s1")
    ∷ []

deliveries_once_example :
    let b = act_all (board connecting) late_delivery in
    let events = (run connecting (sections late_delivery)).1 in
    (g' : Managed) × (lookup "s1" b.manager.objects ≡ some g')
    × (chain "s1" opening events ≡ some g'.session.status)
    × ((st : Status) → entries "s1" st b.due + entries "s1" st b.heard ≡ entries "s1" st events)
    × (entries "s1" closed b.heard ≤ 1)
    × (entries "s1" open_now b.heard ≤ 1)
    × (opening ≡ closed → g'.session.status ≡ closed)
    × ((r : CloseReason) → none ≡ some r → g'.session.close_reason ≡ some r)
unfolding Status-discrete
deliveries_once_example =
    deliveries_once "s1" connecting late_delivery managed (named managed refl) tt connecting_found

run_removes_once_example :
    removals "s1" (run connecting schedule).1 + held (run connecting schedule).0.terminals "s1"
    ≡ held connecting.terminals "s1"
run_removes_once_example = run_removes_once "s1" connecting schedule (refl, tt) tt

registered_here : contains connected.terminals "s1" ≡ true
unfolding string_eq
registered_here = refl

close-IsClosedDown_example :
    let (m', es) =
      close connected "s1" (some client_ui) (bytes_in (104 ∷ []) ∷ hung_up ∷ []) true 9 in
    IsClosedDown "s1" m' es
close-IsClosedDown_example =
    close-IsClosedDown connected "s1" (some client_ui) (bytes_in (104 ∷ []) ∷ hung_up ∷ []) true 9
      live (refl, tt) registered_here connected_found refl (unfold Status-discrete in refl)

finish_create-ends_example :
    let (m', how, es) = finish_create connecting "s1" true in
    ((true && is_status opening opening) ≡ true
      → (how ≡ opened)
        × (contains m'.terminals "s1" ≡ true)
        × ((g' : Managed) × (lookup "s1" m'.objects ≡ some g')
            × (g'.session.status ≡ open_now)
            × (g'.has_transport ≡ true)))
    × ((true && is_status opening opening) ≡ false → (how ≢ opened) × IsClosedDown "s1" m' es)
finish_create-ends_example =
    finish_create-ends connecting "s1" true managed (refl, tt) registered_here connecting_found
