-- ===== src/Ws/Live.antt =====
-- A session that is watched from its attach on: what the client has of it on its screen.
use mathlib.Core.Option
use shell_watch.Base.{
  ℕ, ◌≤◌, ◌-◌, ◌||◌, ltb, drop, ap, length-take, length-append, ◌≡◌, refl, sym, ◌∙◌, Bool, true,
  false, Option, none, some, String, List, [], ◌∷◌, ◌++◌, append_assoc, append-nil, ==-refl,
  if◌then◌else◌, string_eq, lookup, insert, arith, length, take, take-append-drop, take_all,
  Bool-cases, inl, inr, pos, nat_eq,
}
use shell_watch.Terminal.{Status}
use shell_watch.Terminal.Buffer.{OutputBuffer, FromResult, read_from}
use shell_watch.Terminal.Buffer.Stream.{Holds}
use shell_watch.Terminal.Buffer.Reads.{read_from-Holds}
use shell_watch.Terminal.Manager.{Manager}
use shell_watch.Ws.{
  status_frame, mode, Conn, new_conn, enqueue, is_attached, attach_with_catch_up, flush, is_idle,
}
use shell_watch.Ws.Router.{output_frames}
use shell_watch.Ws.Lives.{Act, run}
use shell_watch.Ws.Streams.{text, screen, IsKept, screen-text, history, Carries, Shows, ShowsAt}
use shell_watch.Ws.CatchUp.{flush_catches_up}
use shell_watch.Ws.Spectates.{Spectates, missed, flush_stays, watched-Shows}

-- What the client had before: nothing, or a piece of the stream up to the offset that it asks from.
abbrev pub Ready : List ℕ → List ℕ → Option ℕ → Type 0
Ready acc s none = acc ≡ []
Ready acc s (some k) = (front : List ℕ) × (front ++ acc ≡ take k s)

-- The connection after a first attach, with the frames of its catch-up.
abbrev pub attached_conn : String → String → Status → Bool → FromResult → Conn
attached_conn account id st control r =
    attach_with_catch_up (new_conn account) id control r.offset
      (status_frame id st ∷ mode id control ∷ output_frames id r)

idle_parts : (r : FromResult) → is_idle r ≡ true → (r.bytes ≡ []) × (r.reset ≡ false)
idle_parts r i = (empty r.bytes (ground arith), ground arith)
  where
    empty : (xs : List ℕ) → length xs ≡ 0 → xs ≡ []
    empty [] e = refl
    empty (x ∷ xs) e = absurd (omega arith)

attached_text :
    (account id : String) (acc : List ℕ) (st : Status) (control : Bool) (r : FromResult)
    → text id acc (history (attached_conn account id st control r))
      ≡ (if r.reset then r.bytes else acc ++ r.bytes)
unfolding attach_with_catch_up enqueue text
attached_text account id acc st control r = elim (Bool-cases (is_idle r)) [
  | inl i ↦ rw i (sym (rw ((idle_parts r i).1, (idle_parts r i).0) (append-nil acc)))
  | inr i ↦ rw i (rw (==-refl id) refl)
]

-- How much of the stream's start is not on the screen after the attach: without an offset, or with
-- one that the ring cannot serve, what the ring has dropped, and else what the client lacked.
abbrev pub missed_at_first : OutputBuffer → List ℕ → List ℕ → Option ℕ → ℕ
missed_at_first b acc s none = b.base_offset
missed_at_first b acc s (some k) =
    if ltb k b.base_offset || ltb (length s) k then b.base_offset else k - length acc

reset_unserved :
    (b : OutputBuffer) (s : List ℕ) (k : ℕ)
    → Holds b s
    → (read_from b (some (pos k))).reset ≡ (ltb k b.base_offset || ltb (length s) k)
unfolding read_from
reset_unserved b s k h = ground (arith, h.total)

front_length :
    (front acc s : List ℕ) (k : ℕ)
    → front ++ acc ≡ take k s
    → k ≤ length s
    → length front ≡ k - length acc
front_length front acc s k e l =
    omega (arith, ap length e, length-append front acc, length-take k s, l)

base_length :
    (b : OutputBuffer) (s : List ℕ) → Holds b s → length (take b.base_offset s) ≡ b.base_offset
base_length b s h = omega (arith, length-take b.base_offset s, h.total)

drop-prefix : (xs ys : List ℕ) → drop (length xs) (xs ++ ys) ≡ ys
drop-prefix [] ys = refl
drop-prefix (x ∷ xs) ys = drop-prefix xs ys

-- What a served read adds to what the client had.
attached_shows :
    (account id : String) (acc s : List ℕ) (st : Status) (control : Bool) (b : OutputBuffer)
    (after : Option ℕ)
    → Holds b s
    → Ready acc s after
    → let r = read_from b (Option.map pos after) in
      (front : List ℕ) × (front ++ text id acc (history (attached_conn account id st control r))
        ≡ s)
      × (length front ≡ missed_at_first b acc s after)
attached_shows account id acc s st control b none h e =
    let v = read_from-Holds b s (pos 0) h in
    (
      take b.base_offset s,
      rw (attached_text account id acc st control (read_from b none), v.1, v.0, e, h.window)
          (take-append-drop b.base_offset s),
      base_length b s h,
    )
attached_shows account id acc s st control b (some k) h e =
    let v = (read_from-Holds b s (pos k) h).2 in
    let r : FromResult = read_from b (some (pos k)) in
    let q = attached_text account id acc st control r in
    elim (Bool-cases r.reset) [
      | inl t ↦ (
        take b.base_offset s,
        rw (q, t, v.1 t, h.window) (take-append-drop b.base_offset s),
        rw (sym (reset_unserved b s k h), t) (base_length b s h),
      )
      | inr t ↦ (
        e.0,
        rw (q, t) (sym (append_assoc e.0 acc r.bytes) ∙ rw e.1 (v.3 t)),
        rw (sym (reset_unserved b s k h), t)
            (front_length e.0 acc s k e.1
              (within (ltb k b.base_offset) k (sym (reset_unserved b s k h) ∙ t))),
      )
    ]
  where
    within : (c : Bool) (k : ℕ) → (c || ltb (length s) k) ≡ false → k ≤ length s
    within c k h = ground arith

read_offset :
    (b : OutputBuffer) (s : List ℕ) (after : Option ℕ)
    → Holds b s
    → (read_from b (Option.map pos after)).offset ≡ length s
read_offset b s none h = unfold read_from in h.total
read_offset b s (some k) h = (read_from-Holds b s (pos k) h).2.0

attached_state :
    (account id : String) (st : Status) (control : Bool) (r : FromResult)
    → (is_attached (attached_conn account id st control r) id ≡ true)
      × (lookup id (attached_conn account id st control r).last_offset ≡ some r.offset)
unfolding attach_with_catch_up enqueue is_attached insert lookup
attached_state account id st control r = elim (Bool-cases (is_idle r)) [
  | inl i ↦ rw i (rw (==-refl id) (refl, refl))
  | inr i ↦ rw i (rw (==-refl id) (refl, refl))
]

-- The connection of a client that attaches, watches, and gets a flush.
abbrev pub conn_after :
    String → String → Status → Bool → OutputBuffer → Option ℕ → List Act → Manager → Conn
conn_after account id st control b after acts m =
    flush m id
      (run (attached_conn account id st control (read_from b (Option.map pos after))) acts).0

-- A flush with nothing new.
at_the_end :
    (id : String) (acc s : List ℕ) (m : Manager) (c : Conn) (p : ℕ)
    → Carries id m s
    → ShowsAt id acc s c (length s) p
    → (flush m id c).closed ≡ false
    → ShowsAt id acc s (flush m id c) (length s) p
at_the_end id acc s m c p w (h, at, lost) o =
    let (h', at', lost') = flush_catches_up id acc s m c w h o in
    (h', at', lost' ∙ ground (arith, w.holds.total, at) ∙ lost)

-- A client attaches to a session on a new connection, with nothing on its screen or with a piece of
-- the session's stream and the offset at which it ends. It watches while the output grows, in any
-- interleaving of the growth with output of other sessions, pushed messages and the writer. If the
-- connection has not overflowed, then after a flush its screen shows the stream to its end, all but
-- a start of exactly the bytes that it lacked, or that the ring had dropped, at the attach, or,
-- where the ring later dropped bytes before they were read, that it had dropped then. So nothing
-- that the ring still had is lost, and nothing is shown twice or out of order. The client decodes
-- the data of the frames from JSON, whose encoder is an argument and keeps the data of the frames.
pub watched_catches_up :
    (json : List ℕ → List ℕ) (account id : String) (acc s : List ℕ) (st : Status) (control : Bool)
    (b : OutputBuffer) (after : Option ℕ) (acts : List Act) (s' : List ℕ) (m : Manager)
    → Holds b s
    → Ready acc s after
    → (w : Spectates id s acts s') → Carries id m s'
    → (conn_after account id st control b after acts m).closed ≡ false
    → IsKept json id (history (conn_after account id st control b after acts m))
    → screen json id acc (history (conn_after account id st control b after acts m))
      ≡ drop (missed id (missed_at_first b acc s after) w) s'
watched_catches_up json account id acc s st control b after acts s' m h e w k o kept =
    let r : FromResult = read_from b (Option.map pos after) in
    let c : Conn = attached_conn account id st control r in
    let a = attached_state account id st control r in
    let x = attached_shows account id acc s st control b after h e in
    let at : r.offset ≡ length s = read_offset b s after h in
    let start : Shows id acc s c = record {
      attached = a.0;
      last = r.offset;
      noted = a.1;
      within = omega arith;
      before = x.0;
      shown = x.1 ∙ sym (take_all r.offset s (omega arith));
    } in
    let p = missed_at_first b acc s after in
    let there = watched-Shows id acc c p w (start, at, x.2) (flush_stays m id (run c acts).0 o) in
    let (last, end, lost) = at_the_end id acc s' m (run c acts).0 (missed id p w) k there o in
    screen-text json id acc (history (flush m id (run c acts).0)) kept
    ∙ sym (drop-prefix last.before _)
    ∙ ap (drop (length last.before)) (last.shown ∙ take_all last.last s' (omega (arith, end)))
    ∙ ap (λ n. drop n s') lost
