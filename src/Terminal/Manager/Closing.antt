-- ===== src/Terminal/Manager/Closing.antt =====
-- `Close`, the pump and the end of `Create`, run without interruption: their sections in the order
-- of the code. `joined` says that the pump ended before the close's timer.
pub mod Keeps
pub mod Ends
pub mod Creates
use shell_watch.Base.{
  ℕ, suc, ◌+◌, ◌≡◌, refl, sym, ap, ◌∙◌, ◌⊎◌, inl, inr, ◌≢◌, Bool, true, false, not, ◌&&◌, ◌||◌,
  Option, none, some, String, List, [], ◌∷◌, ◌++◌, arith, ◌==◌, if◌then◌else◌, lookup,
  lookup-insert, contains, remove_first, IsDistinct, contains-remove_first, string_eq, Option-cases,
  Bool-cases, ==-refl,
}
use shell_watch.Terminal.{
  Status, opening, open_now, closing, closed, error, Status-discrete, CloseReason, server_hangup,
  transport_error,
}
use shell_watch.Terminal.Manager.{
  Managed, Manager, Event, removed, adopt, set_status, begin_closing, remove_entry, pump_output,
  abandon, reason_or, is_status, is_ignored, is_dead, put_object, with_status, stamp, output_grew,
}
use shell_watch.Terminal.Buffer.{OutputBuffer, append, clear, current_offset}

-- An event of a transport: bytes, a failure, or the end of the session.
pub data TransportEvent : Type 0 where
  bytes_in : List ℕ → TransportEvent
  failed hung_up : TransportEvent

-- The loop of `pump`, over all that the transport delivers before its channel closes.
unfoldable pub pump : Manager → String → List TransportEvent → ℕ → Manager × List Event
pump m id [] now = set_status m id closed (some (reason_or m id server_hangup))
pump m id (failed ∷ _) now = set_status m id error (some (reason_or m id transport_error))
pump m id (hung_up ∷ _) now = set_status m id closed (some (reason_or m id server_hangup))
pump m id (bytes_in bytes ∷ evs) now =
    let (m', es) = pump_output m id bytes now in let (t, fs) = pump m' id evs now in (t, es ++ fs)

-- The last two calls of `Close`.
unfoldable pub finish_close : Manager → String → Option CloseReason → Manager × List Event
finish_close m id reason =
    let (m', es) = set_status m id closed reason in
    let (t, fs) = remove_entry m' id in (t, es ++ fs)

-- `Close` once the session is closing and its transport is closed.
unfoldable pub close_transport :
    Manager → String → Option CloseReason → List TransportEvent → Bool → ℕ → Manager × List Event
close_transport m id reason evs joined now =
    let (m', es) = if joined then pump m id evs now else (abandon m id, []) in
    let (t, fs) = finish_close m' id reason in (t, es ++ fs)

unfoldable pub close :
    Manager → String → Option CloseReason → List TransportEvent → Bool → ℕ → Manager × List Event
close m id reason evs joined now =
    if not (contains m.terminals id)
    then (m, [])
    else (let (m', ours, es) = begin_closing m id reason in
        elim ours [
          | false ↦ (m', es)
          | true ↦ elim (lookup id m'.objects) [
            | none ↦ (m', es)
            | some g ↦
                if not g.has_transport
                then (m', es)
                else (let (t, fs) = close_transport m' id reason evs joined now in (t, es ++ fs))
          ]
        ])

pub data CreateEnd : Type 0 where
  failed_to_connect closed_during_setup opened : CreateEnd

-- `Create` after the factory, which returned a transport or an error.
unfoldable pub finish_create : Manager → String → Bool → Manager × CreateEnd × List Event
finish_create m id ok =
    let (m', aborted) = adopt m id ok in
    if not ok
    then (let (t, es) = set_status m' id closed (some transport_error) in
        let (u, fs) = remove_entry t id in (u, failed_to_connect, es ++ fs))
    else if aborted
    then (let (t, es) = set_status m' id closed none in
        let (u, fs) = remove_entry t id in (u, closed_during_setup, es ++ fs))
    else (let (t, es) = set_status m' id open_now none in (t, opened, es))
