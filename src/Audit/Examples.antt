-- ===== src/Audit/Examples.antt =====
-- Runs of the logs, and the theorems at concrete inputs.
use shell_watch.Base.{
  ℕ, ◌≡◌, refl, none, some, String, List, [], ◌∷◌, arith, lookup, inl, nat_eq, string_eq,
}
use shell_watch.Terminal.{
  transport_error, Status, opening, open_now, closing, closed, error, mcp, Session,
}
use shell_watch.Audit.{Key, paginate, clamp_limit, precedes, where_rows, list_rows}
use shell_watch.Audit.Readers.{SigningRow, SigningFilters, signing_conds, list_signings}
use shell_watch.Audit.Walk.{IsDescending, walk, walk_lem}
use shell_watch.Audit.Writer.{SessionLog}
use shell_watch.Audit.Writer.Rows.{Heard, log_all, first_end, IsEnded, IsOf, log_all_lem}

abbrev alice : String
alice = "alice"

abbrev row : ℕ → ℕ → String → SigningRow
row t i account = record {
  key = record { created_at = t; id = i };
  account_id = account;
  source = "ui";
  outcome = none;
}

abbrev key_of : SigningRow → Key
key_of r = r.key

-- Two rows of one time, and one of another account.
abbrev table : List SigningRow
table = row 9 4 alice ∷ row 9 2 alice ∷ row 8 7 "bob" ∷ row 8 1 alice ∷ row 3 5 alice ∷ []

abbrev no_filters : SigningFilters
no_filters = record { source = ""; outcome = ""; from = none; to = none }

second_page :
    (list_signings table alice no_filters (some (record { created_at = 9; id = 4 })) 2).rows
    ≡ row 9 2 alice ∷ row 8 1 alice ∷ []
unfolding list_signings list_rows paginate clamp_limit precedes nat_eq string_eq
second_page = refl

descending : IsDescending key_of table
unfolding precedes nat_eq
descending = (
  (refl, (refl, (refl, (refl, tt)))),
  ((refl, (refl, (refl, tt))), ((refl, (refl, tt)), ((refl, tt), (tt, tt)))),
)

walk_lem_example :
    walk key_of (signing_conds alice no_filters) table 2 6 none
    ≡ some (where_rows (signing_conds alice no_filters) table)
walk_lem_example =
    walk_lem key_of (signing_conds alice no_filters) table 2 6 descending (omega arith)

abbrev session : Session
session = record {
  session_id = "s1";
  endpoint_id = "e1";
  account_id = alice;
  status = open_now;
  created_at = 10;
  last_activity_at = 10;
  source = mcp;
  close_reason = none;
  source_ip = "";
  owner_client_id = "c1";
  mcp_reason = "";
  mcp_client_name = "";
  mcp_client_ver = "";
}

abbrev event : Status → Status → ℕ → Heard
event previous status now = record {
  event = record {
    session_id = "s1";
    status = status;
    previous = previous;
    reason = some transport_error;
    created_at = 10;
  };
  answer = some session;
  now = now;
}

-- A transport that fails, and is closed later.
abbrev failing : List Heard
failing = event open_now error 40 ∷ event error closing 50 ∷ event closing closed 51 ∷ []

log_all_lem_example :
    (r : SessionLog) × (lookup session.session_id (log_all [] (event opening open_now 12 ∷ failing))
      ≡ some r)
    × IsOf session r
    × IsEnded (first_end session.session_id failing) r
log_all_lem_example =
    log_all_lem [] (event opening open_now 12) failing session (unfold lookup in refl) refl refl
      (inl refl)
