-- ===== src/Audit/Writer.antt =====
-- internal/audit/writer.go, the log of sessions: the subscriber of the manager's status events, over
-- the table audit_session_lifecycle, whose primary key is the session id. The database takes every
-- statement that its keys allow. `snapshot` is the argument of `AttachManager`, as it answers at
-- the event.
pub mod Rows
use mathlib.Core.Logic.{ite}
use shell_watch.Base.{
  ℕ, suc, ◌/◌, ℤ, sub_ℕ, negsuc, Bool, true, false, Option, none, some, String, List, [], ◌∷◌,
  if◌then◌else◌, Dict, lookup, insert, string_eq, pos, ◌-ℤ◌, is_some,
}
use shell_watch.Terminal.{
  Status, opening, open_now, closing, closed, error, Source, CloseReason, Session,
}
use shell_watch.Terminal.Manager.{StatusEvent, is_status}

pub record SessionLog : Type 0 where
  pub account_id : String
  pub endpoint_id : String
  pub source : Source
  pub status : Status
  pub created_at : ℕ
  pub source_ip : String
  pub mcp_reason : String
  pub mcp_client_name : String
  pub mcp_client_ver : String
  pub closed_at : Option ℕ
  pub duration_ms : Option ℤ
  pub close_reason : Option CloseReason

-- The time in the columns: `Format(isoMillis)` is the text of a whole millisecond, which is a number
-- here. Times and durations are nanoseconds elsewhere.
abbrev pub iso_millis : ℕ → ℕ
iso_millis t = t / 1000000

-- `Duration.Milliseconds`, which rounds towards 0.
abbrev pub milliseconds : ℤ → ℤ
milliseconds (pos n) = pos (n / 1000000)
milliseconds (negsuc n) = sub_ℕ 0 (suc n / 1000000)

abbrev pub open_row : Session → SessionLog
open_row s = record {
  account_id = s.account_id;
  endpoint_id = s.endpoint_id;
  source = s.source;
  status = open_now;
  created_at = iso_millis s.created_at;
  source_ip = s.source_ip;
  mcp_reason = s.mcp_reason;
  mcp_client_name = s.mcp_client_name;
  mcp_client_ver = s.mcp_client_ver;
  closed_at = none;
  duration_ms = none;
  close_reason = none;
}

-- An id that is there is a conflict of keys, and nothing is inserted.
unfoldable pub insert_open : Dict String SessionLog → Session → Dict String SessionLog
insert_open t s = if is_some (lookup s.session_id t) then t else insert s.session_id (open_row s) t

abbrev pub closed_row : SessionLog → StatusEvent → ℕ → SessionLog
closed_row r e now = record r {
  status = e.status;
  closed_at = some (iso_millis now);
  duration_ms = some (milliseconds (pos now -ℤ pos e.created_at));
  close_reason = e.reason;
}

-- `UPDATE … WHERE session_id = ? AND closed_at IS NULL`
unfoldable pub record_close : Dict String SessionLog → StatusEvent → ℕ → Dict String SessionLog
record_close t e now = elim (lookup e.session_id t) [
  | none ↦ t
  | some r ↦ if is_some r.closed_at then t else insert e.session_id (closed_row r e now) t
]

abbrev pub insert_from_opening :
    Dict String SessionLog → Status → Option Session → Dict String SessionLog
insert_from_opening t previous none = t
insert_from_opening t previous (some s) = if is_status previous opening then insert_open t s else t

-- The switch over the status of the event.
abbrev pub by_status :
    Status → Dict String SessionLog → StatusEvent → Option Session → ℕ → Dict String SessionLog
by_status open_now t e snapshot now = insert_from_opening t e.previous snapshot
by_status closing t e snapshot now = insert_from_opening t e.previous snapshot
by_status closed t e snapshot now = record_close t e now
by_status error t e snapshot now = record_close t e now
by_status opening t e snapshot now = t

unfoldable pub handle_session_status :
    Dict String SessionLog → StatusEvent → Option Session → ℕ → Dict String SessionLog
unfolding insert_open record_close
handle_session_status t e snapshot now = by_status e.status t e snapshot now
