-- ===== src/Terminal/Manager/Steps.antt =====
-- Interleavings: a schedule is a list of sections, in any order and with any arguments, so that it
-- has every behaviour of the goroutines that run them. A status is set to open by `Create`, to
-- error by a pump, and to closed by `Create`, a pump and `Close`.
use shell_watch.Base.{
  ℕ, ◌≡◌, Bool, true, false, not, ◌&&◌, Option, none, some, String, List, [], ◌∷◌, ◌++◌, ◌==◌,
  if◌then◌else◌, lookup, string_eq,
}
use shell_watch.Terminal.{
  Status, opening, open_now, closing, closed, error, CloseReason, Trigger, EndpointRef,
}
use shell_watch.Terminal.Manager.{
  Managed, Manager, Event, status_changed, output_grew, removed, Registered, refused, registered,
  register, adopt, set_status, begin_closing, remove_entry, pump_output, touch_activity, abandon,
  mark_destroyed, remove_for_account, is_status,
}

pub data Section : Type 0 where
  registers : EndpointRef → String → Trigger → String → ℕ → Section
  adopts : String → Bool → Section
  opens : String → Section
  fails finishes : String → Option CloseReason → Section
  begins_closing : String → Option CloseReason → Section
  removes : String → Section
  pumps : String → List ℕ → ℕ → Section
  touches : String → ℕ → Section
  abandons : String → Section
  removes_account : String → Section
  destroys : Section

abbrev pub after_register : Manager → Registered → Manager
after_register m (refused e) = m
after_register m (registered m') = m'

unfoldable pub perform : Manager → Section → Manager × List Event
perform m (registers ep account t id now) = (after_register m (register m ep account t id now), [])
perform m (adopts id ok) = ((adopt m id ok).0, [])
perform m (opens id) = set_status m id open_now none
perform m (fails id reason) = set_status m id error reason
perform m (finishes id reason) = set_status m id closed reason
perform m (begins_closing id reason) = let (m', _, es) = begin_closing m id reason in (m', es)
perform m (removes id) = remove_entry m id
perform m (pumps id bytes now) = pump_output m id bytes now
perform m (touches id now) = (touch_activity m id now, [])
perform m (abandons id) = (abandon m id, [])
perform m (removes_account account) = remove_for_account m account
perform m destroys = ((mark_destroyed m).0, [])

unfoldable pub run : Manager → List Section → Manager × List Event
run m [] = (m, [])
run m (c ∷ cs) = let (m', es) = perform m c in let (t, fs) = run m' cs in (t, es ++ fs)

-- No section of the schedule registers the id: session ids are 48 random bits.
abbrev pub NeverRegisters : String → List Section → Type 0
NeverRegisters id [] = Unit
NeverRegisters id (registers ep account t j now ∷ cs) = ((j == id) ≡ false) × NeverRegisters id cs
NeverRegisters id (_ ∷ cs) = NeverRegisters id cs

-- The registry's keys are the ids of its sessions.
abbrev pub IsNamed : Manager → Type 0
IsNamed m = (id : String) (g : Managed) → lookup id m.objects ≡ some g → g.session.session_id ≡ id

-- The transitions that the code makes.
abbrev pub edge : Status → Status → Bool
edge opening opening = false
edge opening _ = true
edge open_now closing = true
edge open_now closed = true
edge open_now error = true
edge open_now _ = false
edge closing closed = true
edge closing error = true
edge closing _ = false
edge error closing = true
edge error _ = false
edge closed _ = false

-- The status events of the session `id`, read in order from the status `s`: the status that they lead
-- to, or `none` where one does not start at the status before it or makes another transition.
unfoldable pub chain : String → Status → List Event → Option Status
chain id s [] = some s
chain id s (output_grew _ _ ∷ es) = chain id s es
chain id s (removed _ ∷ es) = chain id s es
chain id s (status_changed ev ∷ es) =
    let rest = chain id (if ev.session_id == id then ev.status else s) es in
    if ev.session_id == id && not (is_status ev.previous s && edge s ev.status) then none else rest

abbrev pub status_of : Option Managed → Option Status
status_of none = none
status_of (some g) = some g.session.status

-- One section: the session keeps its id and the reason that it has, and the events lead from its
-- status to its new one.
pub record Follows (id : String) (before after : Option Managed) (es : List Event) : Type 0 where
  pub named : (g : Managed) → after ≡ some g → g.session.session_id ≡ id
  pub led : (s : Status) → status_of before ≡ some s → chain id s es ≡ status_of after
  pub kept :
      (g : Managed)
      → before ≡ some g
      → (g' : Managed) × (after ≡ some g')
        × ((r : CloseReason) → g.session.close_reason ≡ some r → g'.session.close_reason ≡ some r)
