-- ===== src/Terminal/Manager/Closing/Keeps.antt =====
-- What the sections of a close keep of the registry and of the closing session's object.
use shell_watch.Base.{
  ℕ, ◌≡◌, refl, ◌∙◌, inl, inr, Bool, true, false, ◌||◌, Option, some, String, List, [], ◌∷◌, arith,
  if◌then◌else◌, lookup, lookup-insert, contains, IsDistinct, contains-remove_first, string_eq,
  Bool-cases, ==-refl,
}
use shell_watch.Terminal.{
  Status, closing, closed, error, Status-discrete, CloseReason, server_hangup, transport_error,
}
use shell_watch.Terminal.Manager.{
  Managed, Manager, Event, set_status, begin_closing, remove_entry, pump_output, abandon, reason_or,
  is_status, is_ignored, is_dead, put_object, with_status, stamp, output_grew,
}
use shell_watch.Terminal.Buffer.{append, clear, current_offset}
use shell_watch.Terminal.Manager.Closing.{TransportEvent, bytes_in, failed, hung_up, pump}

pub set_status-terminals :
    (m : Manager) (id : String) (st : Status) (r : Option CloseReason)
    → (set_status m id st r).0.terminals ≡ m.terminals
unfolding set_status
set_status-terminals m id st r = ground arith

pub remove_entry-gone :
    (m : Manager) (id : String)
    → IsDistinct m.terminals
    → contains (remove_entry m id).0.terminals id ≡ false
unfolding remove_entry
remove_entry-gone m id d = ground (arith, contains-remove_first m.terminals id id d)

pub remove_entry-found :
    (m : Manager) (id : String) (g : Managed)
    → lookup id m.objects ≡ some g
    → (g' : Managed) × (lookup id (remove_entry m id).0.objects ≡ some g')
      × (g'.session ≡ g.session)
      × (contains m.terminals id ≡ true → g'.output ≡ clear g.output)
unfolding remove_entry
remove_entry-found m id g e = elim (Bool-cases (contains m.terminals id)) [
  | inr absent ↦ rw absent (g, e, refl, λ h. cc)
  | inl here ↦ rw here (
      rw e (
        record g { output = clear g.output },
        ground (arith, lookup-insert id id (record g { output = clear g.output }) m.objects),
        refl,
        λ _. refl,
      ))
]

-- After a status is set to closed the session is closed, or it was in error and stays so.
pub set_closed-dead :
    (m : Manager) (id : String) (r : Option CloseReason) (g : Managed)
    → lookup id m.objects ≡ some g
    → (g' : Managed) × (lookup id (set_status m id closed r).0.objects ≡ some g')
      × (is_dead g'.session ≡ true)
      × (g'.has_transport ≡ g.has_transport)
unfolding set_status
set_closed-dead m id r g e = elim (Bool-cases (is_ignored g.session.status closed)) [
  | inl ig ↦ rw (e, set_status) (rw ig (g, e, unfold Status-discrete in ground arith, refl))
  | inr go ↦
      let g' = with_status g closed (stamp r g.session.close_reason) in
      rw (e, set_status)
        (rw go (
          g',
          lookup-insert id id g' m.objects ∙ rw (==-refl id) refl,
          unfold Status-discrete in refl,
          refl,
        ))
]

-- The registry's list is as before, and the session has an object, whatever is in it.
abbrev Holds : String → Manager → Manager → Type 0
Holds id m m' = (m'.terminals ≡ m.terminals) × ((g' : Managed) × (lookup id m'.objects ≡ some g'))

put_object-Holds : (m : Manager) (id : String) (g : Managed) → Holds id m (put_object m id g)
put_object-Holds m id g = (refl, (g, lookup-insert id id g m.objects ∙ rw (==-refl id) refl))

set_status-Holds :
    (m : Manager) (id : String) (st : Status) (r : Option CloseReason) (g : Managed)
    → lookup id m.objects ≡ some g
    → Holds id m (set_status m id st r).0
unfolding set_status
set_status-Holds m id st r g e = elim (Bool-cases (is_ignored g.session.status st)) [
  | inl ig ↦ rw (e, set_status) (rw ig (refl, (g, e)))
  | inr go ↦
      rw (e, set_status)
        (rw go (put_object-Holds m id (with_status g st (stamp r g.session.close_reason))))
]

pub abandon-Holds :
    (m : Manager) (id : String) (g : Managed)
    → lookup id m.objects ≡ some g
    → Holds id m (abandon m id)
unfolding abandon
abandon-Holds m id g e = rw (e, abandon) (put_object-Holds m id (record g { abandoned = true }))

pump_output-Holds :
    (m : Manager) (id : String) (bytes : List ℕ) (now : ℕ) (g : Managed)
    → lookup id m.objects ≡ some g
    → Holds id m (pump_output m id bytes now).0
unfolding pump_output
pump_output-Holds m id bytes now g e = rw (e, pump_output) (pumped g.abandoned)
  where
    g' : Managed
    g' = record g {
      output = append g.output bytes;
      session = record (g.session) { last_activity_at = now };
    }

    pumped :
        (b : Bool)
        → (let (t, _) : Manager × List Event =
              (if b then (m, []) else (
                put_object m id g',
                output_grew g.session.session_id (current_offset g'.output) ∷ [],
              )) in
            Holds id m t)
    pumped true = (refl, (g, e))
    pumped false = put_object-Holds m id g'

pub pump-Holds :
    (m : Manager) (id : String) (evs : List TransportEvent) (now : ℕ) (g : Managed)
    → lookup id m.objects ≡ some g
    → Holds id m (pump m id evs now).0
unfolding pump
pump-Holds m id [] now g e = set_status-Holds m id closed (some (reason_or m id server_hangup)) g e
pump-Holds m id (failed ∷ evs) now g e =
    set_status-Holds m id error (some (reason_or m id transport_error)) g e
pump-Holds m id (hung_up ∷ evs) now g e =
    set_status-Holds m id closed (some (reason_or m id server_hangup)) g e
pump-Holds m id (bytes_in bytes ∷ evs) now g e =
    let (same, (h, k)) = pump_output-Holds m id bytes now g e in
    let (same', found') = pump-Holds (pump_output m id bytes now).0 id evs now h k in
    (same' ∙ same, found')

pub begin_closing-wins :
    (m : Manager) (id : String) (reason : Option CloseReason) (g : Managed)
    → lookup id m.objects ≡ some g
    → (is_status g.session.status closed || is_status g.session.status closing) ≡ false
    → let (m', ours, _) = begin_closing m id reason in
      (ours ≡ true)
      × (m'.terminals ≡ m.terminals)
      × ((g' : Managed) × (lookup id m'.objects ≡ some g') × (g'.has_transport ≡ g.has_transport))
unfolding begin_closing
begin_closing-wins m id reason g e h =
    let g' = with_status g closing (stamp reason g.session.close_reason) in
    rw (e, begin_closing)
      (rw h (refl, refl, (g', lookup-insert id id g' m.objects ∙ rw (==-refl id) refl, refl)))
