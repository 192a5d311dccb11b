-- ===== src/Ws.antt =====
-- internal/ws: the browser connections. This file is conn.go: one connection, its state for each
-- session, and its queue of frames. Its sections under the locks are the functions; the flush lock
-- makes a read of a session's buffer and the frames that follow from it one step. `out` is the
-- channel to the writer goroutine and `delivered` is what the writer took from it. The data of an
-- output frame is the text that goes into the JSON encoder, which replaces bytes that are no UTF-8.
pub mod Spectates
pub mod Router
pub mod Hub
pub mod Streams
mod Flushes
mod CatchUp
pub mod Live
pub mod Closing
pub mod Reattach
mod Untold
mod Listed
pub mod Lives
pub mod Isolation
pub mod Examples
use shell_watch.Base.{
  ℕ, ◌+◌, Bool, true, false, not, ◌&&◌, ◌||◌, Option, none, some, String, List, [], ◌∷◌, ◌++◌, ltb,
  ◌==◌, if◌then◌else◌, Dict, lookup, insert, erase, length, string_eq, nat_eq, pos,
}
use shell_watch.Terminal.{Status, Source}
use shell_watch.Terminal.Buffer.{FromResult}
use shell_watch.Terminal.Manager.{Manager}
use shell_watch.Terminal.Manager.Access.{read_output_from, InputResult}

pub data ErrorText : Type 0 where
  session_not_found session_not_attached : String → ErrorText
  observer_mode invalid_message : ErrorText
  input_failed : InputResult → ErrorText

pub record Entry : Type 0 where
  pub session_id : String
  pub endpoint_id : String
  pub status : Status
  pub created_at : ℕ
  pub source : Source
  pub control : Bool

-- The server's messages. The flag of `output` is `reset`, that of `mode` says "control".
pub data Frame : Type 0 where
  output : String → List ℕ → ℕ → Bool → Frame
  closed_frame : String → Frame
  status_frame : String → Status → Frame
  mode : String → Bool → Frame
  error_frame : ErrorText → Frame
  sessions_changed : List Entry → Frame
  pushed : ℕ → Frame

pub record Conn : Type 0 where
  pub account_id : String
  pub attached : Dict String Bool
  pub controlled : Dict String Bool
  pub last_offset : Dict String ℕ
  pub out : List Frame
  pub delivered : List Frame
  pub closed : Bool

abbrev pub new_conn : String → Conn
new_conn account = record {
  account_id = account;
  attached = [];
  controlled = [];
  last_offset = [];
  out = [];
  delivered = [];
  closed = false;
}

abbrev pub queue_size : ℕ
queue_size = 256

-- `m[k]` of a map to `bool`, and to `int64`.
abbrev pub is_set : Option Bool → Bool
is_set none = false
is_set (some b) = b

abbrev pub or_zero : Option ℕ → ℕ
or_zero none = 0
or_zero (some n) = n

-- `enqueueLocked`: a full queue closes the connection.
unfoldable pub enqueue : Conn → Frame → Conn
enqueue c f =
    if c.closed
    then c
    else if ltb (length c.out) queue_size
    then record c { out = c.out ++ f ∷ [] }
    else record c { closed = true }

-- The writer goroutine takes one frame.
unfoldable pub take_frame : Conn → Conn
take_frame c = elim c.out [
  | [] ↦ c
  | f ∷ fs ↦ record c { out = fs; delivered = c.delivered ++ f ∷ [] }
]

unfoldable pub close : Conn → Conn
close c = record c { closed = true }

unfoldable pub is_attached : Conn → String → Bool
is_attached c id = is_set (lookup id c.attached)

unfoldable pub has_control : Conn → String → Bool
has_control c id = is_set (lookup id c.controlled)

-- The frames of `attachWithCatchUp`, up to the first that overflows.
abbrev pub enqueue_all : Conn → List Frame → Conn
enqueue_all c [] = c
enqueue_all c (f ∷ fs) = enqueue_all (enqueue c f) fs

unfoldable pub attach_with_catch_up : Conn → String → Bool → ℕ → List Frame → Conn
unfolding enqueue
attach_with_catch_up c id control offset frames =
    enqueue_all
      (record c {
        attached = insert id true c.attached;
        controlled = if control then insert id true c.controlled else c.controlled;
        last_offset = insert id offset c.last_offset;
      })
      frames

unfoldable pub detach : Conn → String → Conn
detach c id = record c {
  attached = erase id c.attached;
  controlled = erase id c.controlled;
  last_offset = erase id c.last_offset;
}

unfoldable pub take_control : Conn → String → Conn
take_control c id = record c { controlled = insert id true c.controlled }

unfoldable pub release_control : Conn → String → Conn
release_control c id = record c { controlled = erase id c.controlled }

-- `len(res.Data) == 0 && !res.Reset`
abbrev pub is_idle : FromResult → Bool
is_idle r = length r.bytes == 0 && not r.reset

unfoldable pub flush : Manager → String → Conn → Conn
unfolding is_attached enqueue
flush m id c =
    if not (is_attached c id)
    then c
    else elim (read_output_from m id (some (pos (or_zero (lookup id c.last_offset))))) [
      | none ↦ c
      | some r ↦
          if is_idle r
          then c
          else enqueue (record c { last_offset = insert id r.offset c.last_offset })
              (output id r.bytes r.offset r.reset)
    ]

unfoldable pub close_session : Manager → String → Conn → Conn
unfolding flush detach is_attached enqueue
close_session m id c =
    let d = flush m id c in
    if is_attached d id then enqueue (detach d id) (closed_frame id) else detach d id
