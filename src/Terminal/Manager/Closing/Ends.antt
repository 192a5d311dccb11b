-- ===== src/Terminal/Manager/Closing/Ends.antt =====
-- How a close ends, when no other section comes between.
use shell_watch.Base.{
  ℕ, ◌≡◌, refl, sym, ap, ◌∙◌, Bool, true, false, ◌||◌, Option, some, String, List, [], ◌∷◌, ◌++◌,
  lookup, contains, IsDistinct, string_eq,
}
use shell_watch.Terminal.{closing, closed, CloseReason}
use shell_watch.Terminal.Manager.{
  Managed, Manager, Event, removed, set_status, begin_closing, remove_entry, abandon, is_status,
  is_dead,
}
use shell_watch.Terminal.Buffer.{OutputBuffer, clear}
use shell_watch.Terminal.Manager.Closing.{
  TransportEvent, pump, finish_close, close_transport, close,
}
use shell_watch.Terminal.Manager.Closing.Keeps.{
  set_status-terminals, remove_entry-gone, remove_entry-found, set_closed-dead, abandon-Holds,
  pump-Holds, begin_closing-wins,
}

-- The state in which a session's close ends: it is out of the registry, its object is closed, or in
-- error, and holds no output, and the last event is its removal.
abbrev pub IsClosedDown : String → Manager → List Event → Type 0
IsClosedDown id m es =
    (contains m.terminals id ≡ false)
    × ((g : Managed) × (lookup id m.objects ≡ some g)
        × (is_dead g.session ≡ true)
        × (g.output.buf ≡ []))
    × ((fs : List Event) × (es ≡ fs ++ (removed id ∷ [])))

++-assoc : (xs ys zs : List Event) → (xs ++ ys) ++ zs ≡ xs ++ (ys ++ zs)
++-assoc [] ys zs = refl
++-assoc (x ∷ xs) ys zs = ap (λ l. x ∷ l) (++-assoc xs ys zs)

IsClosedDown-append :
    (id : String) (m : Manager) (es fs : List Event)
    → IsClosedDown id m fs
    → IsClosedDown id m (es ++ fs)
IsClosedDown-append id m es fs (gone, dead, (gs, eq)) =
    (gone, dead, (es ++ gs, ap (λ l. es ++ l) eq ∙ sym (++-assoc es gs (removed id ∷ []))))

remove_entry-IsClosedDown :
    (m : Manager) (id : String) (g : Managed)
    → IsDistinct m.terminals
    → contains m.terminals id ≡ true
    → lookup id m.objects ≡ some g
    → is_dead g.session ≡ true
    → IsClosedDown id (remove_entry m id).0 (remove_entry m id).1
unfolding remove_entry clear
remove_entry-IsClosedDown m id g d here e dead =
    let (g', found, same, cleared) = remove_entry-found m id g e in
    (
      remove_entry-gone m id d,
      (g', found, rw same dead, ap (λ (o : OutputBuffer). o.buf) (cleared here)),
      ([], rw here refl),
    )

pub finish_close-IsClosedDown :
    (m : Manager) (id : String) (reason : Option CloseReason) (g : Managed)
    → IsDistinct m.terminals
    → contains m.terminals id ≡ true
    → lookup id m.objects ≡ some g
    → IsClosedDown id (finish_close m id reason).0 (finish_close m id reason).1
unfolding finish_close
finish_close-IsClosedDown m id reason g d here e =
    let (g', found, dead, _) = set_closed-dead m id reason g e in
    let same = set_status-terminals m id closed reason in
    let m' = (set_status m id closed reason).0 in
    IsClosedDown-append id (remove_entry m' id).0 (set_status m id closed reason).1
      (remove_entry m' id).1
      (remove_entry-IsClosedDown m' id g' (rw same d) (rw same here) found dead)

close_transport-IsClosedDown :
    (m : Manager) (id : String) (reason : Option CloseReason) (evs : List TransportEvent)
    (joined : Bool) (now : ℕ) (g : Managed)
    → IsDistinct m.terminals
    → contains m.terminals id ≡ true
    → lookup id m.objects ≡ some g
    → let (m', es) = close_transport m id reason evs joined now in IsClosedDown id m' es
unfolding close_transport
close_transport-IsClosedDown m id reason evs true now g d here e =
    let (same, (g', e')) = pump-Holds m id evs now g e in
    let m' = (pump m id evs now).0 in
    IsClosedDown-append id (finish_close m' id reason).0 (pump m id evs now).1
      (finish_close m' id reason).1
      (finish_close-IsClosedDown m' id reason g' (rw same d) (rw same here) e')
close_transport-IsClosedDown m id reason evs false now g d here e =
    let (same, (g', e')) = abandon-Holds m id g e in
    finish_close-IsClosedDown (abandon m id) id reason g' (rw same d) (rw same here) e'

-- In a registry that names each session once, a close that runs without interruption, of a registered
-- session that has a transport and is not
-- yet closed or closing, ends with the session out of the registry, its object closed or in error
-- with an empty output buffer, and the removal as the last event, whatever the transport still
-- delivers and whether or not the pump ends in time.
pub close-IsClosedDown :
    (m : Manager) (id : String) (reason : Option CloseReason) (evs : List TransportEvent)
    (joined : Bool) (now : ℕ) (g : Managed)
    → IsDistinct m.terminals
    → contains m.terminals id ≡ true
    → lookup id m.objects ≡ some g
    → g.has_transport ≡ true
    → (is_status g.session.status closed || is_status g.session.status closing) ≡ false
    → let (m', es) = close m id reason evs joined now in IsClosedDown id m' es
unfolding close
close-IsClosedDown m id reason evs joined now g d here e wired fresh =
    let (ours, same, (g', found, keeps)) = begin_closing-wins m id reason g e fresh in
    let m' = (begin_closing m id reason).0 in
    rw here (
      rw ours (
        rw found (
          rw (keeps ∙ wired) (
            IsClosedDown-append id (close_transport m' id reason evs joined now).0
              (begin_closing m id reason).2 (close_transport m' id reason evs joined now).1
              (close_transport-IsClosedDown m' id reason evs joined now g' (rw same d)
                (rw same here) found)))))
