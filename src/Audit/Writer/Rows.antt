-- ===== src/Audit/Writer/Rows.antt =====
-- The row of a session over all events that come after its first.
use shell_watch.Base.{
  ℕ, ◌+◌, ◌*◌, ◌-◌, ◌/◌, ◌≤◌, ◌<◌, pos, ◌-ℤ◌, ◌&&◌, ◌≡◌, refl, ap, ◌∙◌, ==→≡, ==-refl, Bool, true,
  false, Option, none, some, String, List, [], ◌∷◌, ◌==◌, if◌then◌else◌, Dict, lookup, insert,
  lookup-insert, string_eq, arith, is_some, Bool-cases, Option-cases, inl, inr, ◌⊎◌,
}
use shell_watch.Terminal.{
  Status, opening, open_now, closing, closed, error, Session, Status-discrete,
}
use shell_watch.Terminal.Manager.{StatusEvent}
use shell_watch.Audit.Writer.{
  SessionLog, open_row, insert_open, closed_row, record_close, insert_from_opening, by_status,
  handle_session_status, milliseconds,
}

-- An event, what the snapshot answers then, and the time.
pub record Heard : Type 0 where
  pub event : StatusEvent
  pub answer : Option Session
  pub now : ℕ

pub log_all : Dict String SessionLog → List Heard → Dict String SessionLog
log_all t [] = t
log_all t (h ∷ hs) = log_all (handle_session_status t h.event h.answer h.now) hs

abbrev pub ends_it : Status → Bool
ends_it closed = true
ends_it error = true
ends_it _ = false

-- The row, closed by the first event of the session that ends it.
abbrev pub closed_first : String → SessionLog → List Heard → SessionLog
closed_first id r [] = r
closed_first id r (h ∷ hs) =
    let rest = closed_first id r hs in
    if h.event.session_id == id
    then (if ends_it h.event.status then closed_row r h.event h.now else rest)
    else rest

-- What one event does to the row of a session that has one.
insert-keeps :
    (t : Dict String SessionLog) (id : String) (r : SessionLog) (previous : Status)
    (answer : Option Session)
    → lookup id t ≡ some r
    → lookup id (insert_from_opening t previous answer) ≡ some r
unfolding insert_open
insert-keeps t id r previous none h = h
insert-keeps t id r previous (some s) h =
    ground (arith, lookup-insert id s.session_id (open_row s) t)

-- `record_close` by what it finds.
close_missing :
    (t : Dict String SessionLog) (e : StatusEvent) (now : ℕ)
    → lookup e.session_id t ≡ none
    → record_close t e now ≡ t
unfolding record_close
close_missing t e now h = rw (h, record_close) refl

close_again :
    (t : Dict String SessionLog) (e : StatusEvent) (now : ℕ) (r : SessionLog)
    → lookup e.session_id t ≡ some r
    → is_some r.closed_at ≡ true
    → record_close t e now ≡ t
unfolding record_close
close_again t e now r h c = rw (h, record_close) (rw c refl)

close_first :
    (t : Dict String SessionLog) (e : StatusEvent) (now : ℕ) (r : SessionLog)
    → lookup e.session_id t ≡ some r
    → is_some r.closed_at ≡ false
    → record_close t e now ≡ insert e.session_id (closed_row r e now) t
unfolding record_close
close_first t e now r h c = rw (h, record_close) (rw c refl)

close-other :
    (t : Dict String SessionLog) (e : StatusEvent) (now : ℕ) (id : String)
    → (e.session_id == id) ≡ false
    → lookup id (record_close t e now) ≡ lookup id t
close-other t e now id n = elim (Option-cases (lookup e.session_id t)) [
  | inl h ↦ rw (close_missing t e now h) refl
  | inr (r, h) ↦ elim (Bool-cases (is_some r.closed_at)) [
    | inl c ↦ rw (close_again t e now r h c) refl
    | inr c ↦
        rw (close_first t e now r h c)
          (lookup-insert id e.session_id (closed_row r e now) t ∙ rw n refl)
  ]
]

close-own :
    (t : Dict String SessionLog) (e : StatusEvent) (now : ℕ) (id : String) (r : SessionLog)
    → (e.session_id == id) ≡ true
    → lookup id t ≡ some r
    → lookup id (record_close t e now)
      ≡ (if is_some r.closed_at then some r else some (closed_row r e now))
close-own t e now id r q h =
    let here : lookup e.session_id t ≡ some r = ap (λ k. lookup k t) (==→≡ e.session_id id q) ∙ h in
    elim (Bool-cases (is_some r.closed_at)) [
      | inl c ↦ rw (close_again t e now r here c, c) h
      | inr c ↦
          rw (close_first t e now r here c, c)
            (lookup-insert id e.session_id (closed_row r e now) t ∙ rw q refl)
    ]

-- One event, for a row that is not closed.
abbrev after_event : String → SessionLog → StatusEvent → ℕ → SessionLog
after_event id r e now =
    if e.session_id == id then (if ends_it e.status then closed_row r e now else r) else r

by_status-open :
    (st : Status) (t : Dict String SessionLog) (e : StatusEvent) (answer : Option Session) (now : ℕ)
    (id : String) (r : SessionLog)
    → lookup id t ≡ some r
    → is_some r.closed_at ≡ false
    → lookup id (by_status st t e answer now)
      ≡ some (if e.session_id == id then (if ends_it st then closed_row r e now else r) else r)
by_status-open opening t e answer now id r h c = ground arith
by_status-open open_now t e answer now id r h c =
    ground (arith, insert-keeps t id r e.previous answer h)
by_status-open closing t e answer now id r h c =
    ground (arith, insert-keeps t id r e.previous answer h)
by_status-open closed t e answer now id r h c =
    ground (arith, close-own t e now id r, close-other t e now id)
by_status-open error t e answer now id r h c =
    ground (arith, close-own t e now id r, close-other t e now id)

-- A row that is closed stays as it is.
by_status-final :
    (st : Status) (t : Dict String SessionLog) (e : StatusEvent) (answer : Option Session) (now : ℕ)
    (id : String) (r : SessionLog)
    → lookup id t ≡ some r
    → is_some r.closed_at ≡ true
    → lookup id (by_status st t e answer now) ≡ some r
by_status-final opening t e answer now id r h c = h
by_status-final open_now t e answer now id r h c = insert-keeps t id r e.previous answer h
by_status-final closing t e answer now id r h c = insert-keeps t id r e.previous answer h
by_status-final closed t e answer now id r h c =
    ground (arith, close-own t e now id r, close-other t e now id)
by_status-final error t e answer now id r h c =
    ground (arith, close-own t e now id r, close-other t e now id)

log_all-final :
    (t : Dict String SessionLog) (hs : List Heard) (id : String) (r : SessionLog)
    → lookup id t ≡ some r
    → is_some r.closed_at ≡ true
    → lookup id (log_all t hs) ≡ some r
unfolding log_all handle_session_status
log_all-final t [] id r h c = h
log_all-final t (x ∷ hs) id r h c =
    log_all-final (handle_session_status t x.event x.answer x.now) hs id r
      (by_status-final x.event.status t x.event x.answer x.now id r h c) c

log_all-open :
    (t : Dict String SessionLog) (hs : List Heard) (id : String) (r : SessionLog)
    → lookup id t ≡ some r
    → is_some r.closed_at ≡ false
    → lookup id (log_all t hs) ≡ some (closed_first id r hs)
unfolding log_all handle_session_status
log_all-open t [] id r h c = h
log_all-open t (x ∷ hs) id r h c =
    let now = by_status-open x.event.status t x.event x.answer x.now id r h c in
    let next = handle_session_status t x.event x.answer x.now in
    elim (Bool-cases (x.event.session_id == id)) [
      | inr n ↦ rw n (log_all-open next hs id r (rw n at now) c)
      | inl q ↦ elim (Bool-cases (ends_it x.event.status)) [
        | inr n ↦ rw (q, n) (log_all-open next hs id r (rw (q, n) at now) c)
        | inl e ↦
            rw (q, e)
              (log_all-final next hs id (closed_row r x.event x.now) (rw (q, e) at now) refl)
      ]
    ]

inserted :
    (t : Dict String SessionLog) (s : Session) (previous : Status) (answer : Option Session)
    → lookup s.session_id t ≡ none
    → answer ≡ some s
    → previous ≡ opening
    → lookup s.session_id (insert_from_opening t previous answer) ≡ some (open_row s)
unfolding insert_open Status-discrete
inserted t s previous answer n p o =
    rw (p, o, n)
      (lookup-insert s.session_id s.session_id (open_row s) t ∙ rw (==-refl s.session_id) refl)

opened :
    (t : Dict String SessionLog) (first : Heard) (s : Session)
    → lookup s.session_id (insert_from_opening t first.event.previous first.answer)
      ≡ some (open_row s)
    → (first.event.status ≡ open_now) ⊎ (first.event.status ≡ closing)
    → lookup s.session_id (handle_session_status t first.event first.answer first.now)
      ≡ some (open_row s)
unfolding handle_session_status
opened t first s h (inl e) = rw (e, by_status) h
opened t first s h (inr e) = rw (e, by_status) h

-- The first event of the session that ends it.
abbrev pub first_end : String → List Heard → Option Heard
first_end id [] = none
first_end id (h ∷ hs) =
    let rest = first_end id hs in
    if h.event.session_id == id && ends_it h.event.status then some h else rest

-- What the log is to say of how a session ended.
abbrev pub IsEnded : Option Heard → SessionLog → Type 0
IsEnded none r =
    (r.status ≡ open_now) × (r.closed_at ≡ none) × (r.duration_ms ≡ none) × (r.close_reason ≡ none)
IsEnded (some h) r =
    (r.status ≡ h.event.status)
    × (r.closed_at ≡ some (h.now / 1000000))
    × (r.close_reason ≡ h.event.reason)
    × (h.event.created_at ≤ h.now
        → (ms : ℕ) × (r.duration_ms ≡ some (pos ms))
          × (h.event.created_at + ms * 1000000 ≤ h.now)
          × (h.now < h.event.created_at + (ms + 1) * 1000000))

-- And of whose it was, and how it came about.
abbrev pub IsOf : Session → SessionLog → Type 0
IsOf s r =
    (r.account_id ≡ s.account_id)
    × (r.endpoint_id ≡ s.endpoint_id)
    × (r.source ≡ s.source)
    × (r.created_at ≡ s.created_at / 1000000)
    × (r.source_ip ≡ s.source_ip)
    × (r.mcp_reason ≡ s.mcp_reason)
    × (r.mcp_client_name ≡ s.mcp_client_name)
    × (r.mcp_client_ver ≡ s.mcp_client_ver)

closed_row_lasts :
    (r : SessionLog) (e : StatusEvent) (now : ℕ)
    → e.created_at ≤ now
    → (ms : ℕ) × ((closed_row r e now).duration_ms ≡ some (pos ms))
      × (e.created_at + ms * 1000000 ≤ now)
      × (now < e.created_at + (ms + 1) * 1000000)
closed_row_lasts r e now l =
    let d = now - e.created_at in
    let gap : (pos now -ℤ pos e.created_at) ≡ pos d = ground arith in
    (d / 1000000, ap (λ x. some (milliseconds x)) gap, omega arith, omega arith)

closed_first_ends :
    (hs : List Heard) (s : Session)
    → IsOf s (closed_first s.session_id (open_row s) hs)
      × IsEnded (first_end s.session_id hs) (closed_first s.session_id (open_row s) hs)
closed_first_ends [] s =
    ((refl, refl, refl, refl, refl, refl, refl, refl), (refl, refl, refl, refl))
closed_first_ends (h ∷ hs) s =
    let rest = closed_first_ends hs s in
    elim (Bool-cases (h.event.session_id == s.session_id)) [
      | inr n ↦ rw n rest
      | inl q ↦ elim (Bool-cases (ends_it h.event.status)) [
        | inr n ↦ rw (q, n) rest
        | inl e ↦
            rw (q, e)
              (
                (refl, refl, refl, refl, refl, refl, refl, refl),
                (refl, refl, refl, closed_row_lasts (open_row s) h.event h.now),
              )
      ]
    ]

-- A session that has no row, and the event by which it leaves opening for open or for closing, with
-- the session as the snapshot gives it. Whatever events of this session and of others follow, with
-- whatever snapshots, the log has one row for the session. It names the session's account, endpoint,
-- origin and millisecond of creation. If no later event ends the session, it is open and says
-- nothing of an end. Otherwise the first later event that ends it, and no other, gives its
-- status, its reason, the millisecond of its close and, if it is not before the creation, the
-- duration in whole milliseconds, rounded down.
pub log_all_lem :
    (t : Dict String SessionLog) (first : Heard) (hs : List Heard) (s : Session)
    → lookup s.session_id t ≡ none
    → first.answer ≡ some s
    → first.event.previous ≡ opening
    → (first.event.status ≡ open_now) ⊎ (first.event.status ≡ closing)
    → (r : SessionLog) × (lookup s.session_id (log_all t (first ∷ hs)) ≡ some r)
      × IsOf s r
      × IsEnded (first_end s.session_id hs) r
unfolding log_all
log_all_lem t first hs s n p o st =
    let (mine, ended) = closed_first_ends hs s in
    (
      closed_first s.session_id (open_row s) hs,
      log_all-open _ hs s.session_id (open_row s)
          (opened t first s (inserted t s first.event.previous first.answer n p o) st) refl,
      mine,
      ended,
    )
