-- ===== src/Terminal/Manager/Access.antt =====
-- internal/terminal/manager.go: the calls of clients on one session, input, size and output. The
-- transport is an argument: whether it takes a write or a new size.
use mathlib.Core.Option
use shell_watch.Base.{
  ℕ, ℤ, Bool, not, ◌&&◌, Option, none, some, String, List, [], ◌∷◌, if◌then◌else◌, ◌==◌, lookup,
  contains, string_eq,
}
use shell_watch.Terminal.{open_now, closed, Session}
use shell_watch.Terminal.Buffer
use shell_watch.Terminal.Buffer.{OutputBuffer, FromResult}
use shell_watch.Terminal.Manager.{Managed, Manager, is_status, snapshot, touch_activity}

-- `get`
unfoldable pub get : Manager → String → Option Managed
get m id = if contains m.terminals id then lookup id m.objects else none

pub data InputResult : Type 0 where
  written not_found not_open write_failed : InputResult

-- The bytes that reach the transport are those of a `written` call.
unfoldable pub send_input : Manager → String → Bool → ℕ → Manager × InputResult
unfolding get
send_input m id takes now = elim (get m id) [
  | none ↦ (m, not_found)
  | some g ↦
      if not (is_status g.session.status open_now)
      then (m, not_open)
      else if takes
      then (touch_activity m id now, written)
      else (m, write_failed)
]

pub data ResizeResult : Type 0 where
  resized unknown no_transport refused : ResizeResult

unfoldable pub resize : Manager → String → Bool → ResizeResult
unfolding get
resize m id takes = elim (get m id) [
  | none ↦ unknown
  | some g ↦ if not g.has_transport then no_transport else if takes then resized else refused
]

unfoldable pub read_output_from : Manager → String → Option ℤ → Option FromResult
unfolding get
read_output_from m id after = Option.map (λ g. Buffer.read_from g.output after) (get m id)

unfoldable pub read_output_tail : Manager → String → ℕ → List ℕ
unfolding get
read_output_tail m id limit = elim (get m id) [ none ↦ [] | some g ↦ Buffer.tail g.output limit ]

unfoldable pub output_offset : Manager → String → Option ℕ
unfolding get
output_offset m id = Option.map (λ g. Buffer.current_offset g.output) (get m id)

abbrev pub endpoints_of : String → List Session → List String
endpoints_of account [] = []
endpoints_of account (s ∷ ss) =
    let rest = endpoints_of account ss in
    if s.account_id == account && not (is_status s.status closed)
    then s.endpoint_id ∷ rest
    else rest

unfoldable pub endpoint_ids_for_account : Manager → String → List String
unfolding snapshot
endpoint_ids_for_account m account = endpoints_of account (snapshot m.objects m.terminals)
