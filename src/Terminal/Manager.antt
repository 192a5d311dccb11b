-- ===== src/Terminal/Manager.antt =====
-- internal/terminal/manager.go: the session registry. Every section of code under the manager's
-- mutex is one function here, so that an interleaving of goroutines is a sequence of such functions
-- (Manager/Steps). A `managed` object outlives its entry in the registry, since a pump and a close
-- hold pointers to it: the objects are a heap keyed by session id, and the registry lists the ids
-- that it holds. The output buffer's own lock is taken inside these sections or just before them.
-- With the state, a section gives the events that it makes: its goroutine calls the subscribers with
-- them after it has unlocked (Manager/Delivery).
pub mod Quiet
pub mod Registers
pub mod Access
pub mod Steps
pub mod Follows
pub mod Lifecycle
pub mod Delivery
pub mod Hooks
pub mod Closing
pub mod Examples
use mathlib.Core.Logic.{ite}
use mathlib.Core.Option
use shell_watch.Base.{
  ℕ, ◌+◌, Bool, true, false, not, ◌&&◌, ◌||◌, Option, none, some, String, List, [], ◌∷◌, ◌++◌, ltb,
  ◌==◌, if◌then◌else◌, Dict, lookup, insert, contains, remove_first, is_some, string_eq, nat_eq,
  length,
}
use shell_watch.Terminal.{
  Status, opening, open_now, closing, closed, error, Status-discrete, Source, mcp, Source-discrete,
  CloseReason, Session, Trigger, EndpointRef,
}
use shell_watch.Terminal.Buffer.{OutputBuffer, new_output_buffer, append, clear, current_offset}

pub record Managed : Type 0 where
  pub session : Session
  pub has_transport : Bool
  pub output : OutputBuffer
  pub abandoned : Bool
  pub can_cancel_setup : Bool

pub record Manager : Type 0 where
  pub destroyed : Bool
  pub objects : Dict String Managed
  pub terminals : List String
  pub max_buffer_size : ℕ
  pub idle_timeout : ℕ

pub record StatusEvent : Type 0 where
  pub session_id : String
  pub status : Status
  pub previous : Status
  pub reason : Option CloseReason
  pub created_at : ℕ

-- What subscribers are told: a status event, an output wake-up, or a removal.
pub data Event : Type 0 where
  status_changed : StatusEvent → Event
  output_grew : String → ℕ → Event
  removed : String → Event

abbrev pub is_status : Status → Status → Bool
is_status s t = ite (Status-discrete s t) true false

abbrev pub put_object : Manager → String → Managed → Manager
put_object m id g = record m { objects = insert id g m.objects }

abbrev pub with_status : Managed → Status → Option CloseReason → Managed
with_status g st r = record g { session = record (g.session) { status = st; close_reason = r } }

-- `if reason != "" && mg.session.CloseReason == "" { … }`
abbrev pub stamp : Option CloseReason → Option CloseReason → Option CloseReason
stamp reason (some r) = some r
stamp reason none = reason

abbrev pub session_of_trigger : String → EndpointRef → Trigger → ℕ → Session
session_of_trigger id ep t now =
    let is_mcp = ite (Source-discrete t.kind mcp) true false in
    record {
      session_id = id;
      endpoint_id = ep.id;
      account_id = ep.account_id;
      status = opening;
      created_at = now;
      last_activity_at = now;
      source = t.kind;
      close_reason = none;
      source_ip = t.source_ip;
      owner_client_id = if is_mcp then t.owner_client_id else "";
      mcp_reason = if is_mcp then t.reason else "";
      mcp_client_name = if is_mcp then t.mcp_client_name else "";
      mcp_client_ver = if is_mcp then t.mcp_client_ver else "";
    }

pub data CreateError : Type 0 where
  unknown_endpoint shutting_down : CreateError

pub data Registered : Type 0 where
  refused : CreateError → Registered
  registered : Manager → Registered

-- `Create` up to the factory: the account guard and the first section.
unfoldable pub register : Manager → EndpointRef → String → Trigger → String → ℕ → Registered
register m ep account t id now =
    if not (ep.account_id == account)
    then refused unknown_endpoint
    else if m.destroyed
    then refused shutting_down
    else registered (record m {
      objects =
          insert id
            (record {
              session = session_of_trigger id ep t now;
              has_transport = false;
              output = new_output_buffer m.max_buffer_size;
              abandoned = false;
              can_cancel_setup = true;
            })
            m.objects;
      terminals = if contains m.terminals id then m.terminals else id ∷ m.terminals;
    })

-- `Create` after the factory: the transport is adopted only if no close came before.
unfoldable pub adopt : Manager → String → Bool → Manager × Bool
adopt m id ok = elim (lookup id m.objects) [
  | none ↦ (m, false)
  | some g ↦
      let aborted = not (is_status g.session.status opening) in
      (
        put_object m id (record g {
          can_cancel_setup = false;
          has_transport = if ok && not aborted then true else g.has_transport;
        }),
        aborted,
      )
]

-- The guard of `setStatus`.
abbrev pub is_ignored : Status → Status → Bool
is_ignored prev st =
    (is_status prev st || is_status prev closed)
    || (is_status prev error || (is_status prev closing && is_status st open_now))

abbrev pub change : Manager → String → Managed → Status → Option CloseReason → Manager × List Event
change m id g st reason =
    let r = stamp reason g.session.close_reason in
    (
      put_object m id (with_status g st r),
      status_changed (record {
        session_id = g.session.session_id;
        status = st;
        previous = g.session.status;
        reason = r;
        created_at = g.session.created_at;
      })
          ∷ [],
    )

-- Up to the unlock; the event goes to the subscribers after it.
unfoldable pub set_status : Manager → String → Status → Option CloseReason → Manager × List Event
set_status m id st reason = elim (lookup id m.objects) [
  | none ↦ (m, [])
  | some g ↦ if is_ignored g.session.status st then (m, []) else change m id g st reason
]

-- Likewise.
unfoldable pub begin_closing : Manager → String → Option CloseReason → Manager × Bool × List Event
begin_closing m id reason = elim (lookup id m.objects) [
  | none ↦ (m, false, [])
  | some g ↦
      if is_status g.session.status closed || is_status g.session.status closing
      then (m, false, [])
      else (let (m', es) = change m id g closing reason in (m', true, es))
]

unfoldable pub remove_entry : Manager → String → Manager × List Event
remove_entry m id =
    if contains m.terminals id
    then (
      record m {
        objects = elim (lookup id m.objects) [
          | none ↦ m.objects
          | some g ↦ insert id (record g { output = clear g.output }) m.objects
        ];
        terminals = remove_first m.terminals id;
      },
      removed id ∷ [],
    )
    else (m, [])

-- The default case of `pump`, for one event of the transport.
unfoldable pub pump_output : Manager → String → List ℕ → ℕ → Manager × List Event
pump_output m id bytes now = elim (lookup id m.objects) [
  | none ↦ (m, [])
  | some g ↦
      if g.abandoned
      then (m, [])
      else (let out = append g.output bytes in
          (
            put_object m id (record g {
              output = out;
              session = record (g.session) { last_activity_at = now };
            }),
            output_grew g.session.session_id (current_offset out) ∷ [],
          ))
]

-- The stores that touch one object and tell nobody: an input's time stamp, and a pump given up.
unfoldable pub touch_activity : Manager → String → ℕ → Manager
touch_activity m id now = elim (lookup id m.objects) [
  | none ↦ m
  | some g ↦ put_object m id (record g { session = record (g.session) { last_activity_at = now } })
]

unfoldable pub abandon : Manager → String → Manager
abandon m id = elim (lookup id m.objects) [
  | none ↦ m
  | some g ↦ put_object m id (record g { abandoned = true })
]

unfoldable pub reason_or : Manager → String → CloseReason → CloseReason
reason_or m id fallback = elim (lookup id m.objects) [
  | none ↦ fallback
  | some g ↦ elim g.session.close_reason [ none ↦ fallback | some r ↦ r ]
]

-- The sessions of the registry, in its order.
unfoldable pub snapshot : Dict String Managed → List String → List Session
snapshot objects [] = []
snapshot objects (id ∷ ids) =
    let rest = snapshot objects ids in
    elim (lookup id objects) [ none ↦ rest | some g ↦ g.session ∷ rest ]

abbrev pub select : (Session → Bool) → List Session → List Session
select p [] = []
select p (s ∷ ss) = let rest = select p ss in if p s then s ∷ rest else rest

abbrev pub is_listed : Session → Bool
is_listed s = not (is_status s.status closed)

unfoldable pub list_sessions : Manager → List Session
unfolding snapshot
list_sessions m = select is_listed (snapshot m.objects m.terminals)

abbrev pub is_listed_for : String → Session → Bool
is_listed_for account s = s.account_id == account && not (is_status s.status closed)

unfoldable pub list_for_account : Manager → String → List Session
unfolding snapshot
list_for_account m account = select (is_listed_for account) (snapshot m.objects m.terminals)

unfoldable pub count_open_for_account : Manager → String → ℕ
unfolding snapshot
count_open_for_account m account = length (
    select (λ s. s.account_id == account && is_status s.status open_now)
      (snapshot m.objects m.terminals))

unfoldable pub get_session : Manager → String → Option Session
get_session m id =
    if contains m.terminals id then Option.map (λ g. g.session) (lookup id m.objects) else none

-- The ids that `SweepIdle`, `CloseAllForAccount`, `CloseAllForClient` and `Destroy` close.
abbrev pub is_idle : ℕ → ℕ → Session → Bool
is_idle timeout now s = is_status s.status open_now && ltb (s.last_activity_at + timeout) now

unfoldable pub idle_ids : Manager → ℕ → List Session
unfolding snapshot
idle_ids m now =
    if m.idle_timeout == 0
    then []
    else select (is_idle m.idle_timeout now) (snapshot m.objects m.terminals)

abbrev pub is_owned_by : String → String → Session → Bool
is_owned_by account client s =
    (s.account_id == account && ite (Source-discrete s.source mcp) true false)
    && (not (is_status s.status closed) && (client == "" || s.owner_client_id == client))

unfoldable pub client_ids : Manager → String → String → List Session
unfolding snapshot
client_ids m account client = select (is_owned_by account client) (snapshot m.objects m.terminals)

unfoldable pub mark_destroyed : Manager → Manager × List String
mark_destroyed m = (record m { destroyed = true }, m.terminals)

abbrev pub is_dead : Session → Bool
is_dead s = is_status s.status closed || is_status s.status error

-- The loop of `RemoveForAccount`: what is left of the registry, the heap, and the removed ids.
unfoldable pub remove_dead :
    String → List String → Dict String Managed → List String × Dict String Managed × List Event
remove_dead account [] objects = ([], objects, [])
remove_dead account (id ∷ ids) objects =
    let (kept, objects', es) = remove_dead account ids objects in
    elim (lookup id objects) [
      | none ↦ (id ∷ kept, objects', es)
      | some g ↦
          if g.session.account_id == account && is_dead g.session
          then (kept, insert id (record g { output = clear g.output }) objects', removed id ∷ es)
          else (id ∷ kept, objects', es)
    ]

unfoldable pub remove_for_account : Manager → String → Manager × List Event
unfolding remove_dead
remove_for_account m account =
    let (kept, objects, es) = remove_dead account m.terminals m.objects in
    (record m { terminals = kept; objects = objects }, es)
