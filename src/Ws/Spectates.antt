-- ===== src/Ws/Spectates.antt =====
-- A client that watches a session: what it has of the stream, step by step.
use shell_watch.Base.{
  ℕ, ◌≡◌, refl, sym, ap, ◌∙◌, Bool, true, false, String, List, [], ◌∷◌, ◌++◌, ◌==◌, if◌then◌else◌,
  string_eq, insert, lookup-insert, arith, Bool-cases, inl, inr, nat_eq, length,
}
use shell_watch.Terminal.Manager.{Manager}
use shell_watch.Ws.{Frame, output, pushed, Conn, enqueue, take_frame, is_attached, flush}
use shell_watch.Ws.Hub.{on_output}
use shell_watch.Ws.Flushes.{flush_cases, flush_detached}
use shell_watch.Ws.Lives.{Act, perform, run}
use shell_watch.Ws.Streams.{text, Carries, ShowsAt, enqueue-ShowsAt, taken-ShowsAt, grown-ShowsAt}
use shell_watch.Ws.CatchUp.{missed_by, flush_catches_up}

-- What happens while the client watches, with the stream before and after: the session's output
-- grows and is announced, other sessions' is, messages for the account are pushed, and the writer
-- takes frames.
pub data Spectates (id : String) : List ℕ → List Act → List ℕ → Type 0 where
  done : {s : List ℕ} → Spectates id s [] s
  grows :
      {s s' : List ℕ} {acts : List Act} (m : Manager) (more : List ℕ)
      → Carries id m (s ++ more)
      → Spectates id (s ++ more) acts s'
      → Spectates id s (Act.growth m id ∷ acts) s'
  other :
      {s s' : List ℕ} {acts : List Act} (m : Manager) (j : String)
      → (j == id) ≡ false
      → Spectates id s acts s'
      → Spectates id s (Act.growth m j ∷ acts) s'
  pushes :
      {s s' : List ℕ} {acts : List Act} (n : ℕ)
      → Spectates id s acts s'
      → Spectates id s (Act.push n ∷ acts) s'
  takes :
      {s s' : List ℕ} {acts : List Act}
      → Spectates id s acts s'
      → Spectates id s (Act.taken ∷ acts) s'

-- A connection that is closed stays closed.
enqueue_stays : (c : Conn) (f : Frame) → (enqueue c f).closed ≡ false → c.closed ≡ false
unfolding enqueue
enqueue_stays c f h = ground arith

pub flush_stays :
    (m : Manager) (j : String) (c : Conn) → (flush m j c).closed ≡ false → c.closed ≡ false
flush_stays m j c h = elim (flush_cases m j c) [
  | inl e ↦ rw e at h
  | inr (r, s) ↦ enqueue_stays _ _ (rw s.gives at h)
]

-- A flush of another session.
other_flush :
    (id j : String) (acc s : List ℕ) (m : Manager) (c : Conn) {last lost : ℕ}
    → (j == id) ≡ false
    → ShowsAt id acc s c last lost
    → (flush m j c).closed ≡ false
    → ShowsAt id acc s (flush m j c) last lost
unfolding text is_attached
other_flush id j acc s m c n (h, at, lost) o = elim (flush_cases m j c) [
  | inl e ↦ rw e (h, at, lost)
  | inr (r, w) ↦ rw w.gives (
      enqueue-ShowsAt id acc s (record c { last_offset = insert j r.offset c.last_offset })
        (output j r.bytes r.offset r.reset) (λ a. rw n refl) (rw w.gives at o)
        (
          record {
            attached = h.attached;
            last = h.last;
            noted = lookup-insert id j r.offset c.last_offset ∙ rw n h.noted;
            within = h.within;
            before = h.before;
            shown = h.shown;
          },
          at,
          lost,
        ))
]

on_output-flush : (m : Manager) (j : String) (c : Conn) → on_output m j c ≡ flush m j c
unfolding on_output
on_output-flush m j c = elim (Bool-cases (is_attached c j)) [
  | inl a ↦ pick true a
  | inr a ↦ pick false a ∙ sym (flush_detached m j c a)
]
  where
    pick :
        (b : Bool)
        → is_attached c j ≡ b
        → (if is_attached c j then flush m j c else c) ≡ (if b then flush m j c else c)
    pick b e = ap (λ x. if x then flush m j c else c) e

take_stays : (c : Conn) → (take_frame c).closed ≡ c.closed
unfolding take_frame
take_stays c = ground arith

run_stays :
    (id : String) {s s' : List ℕ} (c : Conn) {acts : List Act}
    → Spectates id s acts s'
    → (run c acts).0.closed ≡ false
    → c.closed ≡ false
unfolding run perform
run_stays id c done o = o
run_stays id c (grows m more w v) o =
    flush_stays m id c (rw (on_output-flush m id c) at (run_stays id (on_output m id c) v o))
run_stays id c (other m j n v) o =
    flush_stays m j c (rw (on_output-flush m j c) at (run_stays id (on_output m j c) v o))
run_stays id c (pushes n v) o = enqueue_stays c (pushed n) (run_stays id (enqueue c (pushed n)) v o)
run_stays id c (takes v) o = sym (take_stays c) ∙ run_stays id (take_frame c) v o

-- How much of the stream's start is not on the screen in the end, of `p` in the beginning: the ring is
-- read at every growth, from the end of the stream before it.
unfoldable pub missed :
    (id : String) (p : ℕ) {s s' : List ℕ} {acts : List Act} → Spectates id s acts s' → ℕ
missed id p done = p
missed id p {s} (grows m more w v) = missed id (missed_by w.managed.output (length s) p) v
missed id p (other m j n v) = missed id p v
missed id p (pushes n v) = missed id p v
missed id p (takes v) = missed id p v

grown_flush :
    (id : String) (acc s more : List ℕ) (m : Manager) (c : Conn) (p : ℕ)
    (w : Carries id m (s ++ more))
    → ShowsAt id acc s c (length s) p
    → (flush m id c).closed ≡ false
    → ShowsAt id acc
        (s ++ more)
        (flush m id c)
        (length (s ++ more))
        (missed_by w.managed.output (length s) p)
grown_flush id acc s more m c p w v o =
    let (h, at, lost) = grown-ShowsAt id acc s more c v in
    let (h', at', lost') = flush_catches_up id acc (s ++ more) m c w h o in
    (h', at', rw (at, lost) at lost')

pub watched-Shows :
    (id : String) (acc : List ℕ) {s s' : List ℕ} (c : Conn) (p : ℕ) {acts : List Act}
    → (v : Spectates id s acts s') → ShowsAt id acc s c (length s) p
    → (run c acts).0.closed ≡ false
    → ShowsAt id acc s' (run c acts).0 (length s') (missed id p v)
unfolding run perform text missed
watched-Shows id acc c p done h o = h
watched-Shows id acc {s} c p (grows m more w v) h o =
    let open_now : (flush m id c).closed ≡ false =
      rw (on_output-flush m id c) at (run_stays id (on_output m id c) v o) in
    watched-Shows id acc (on_output m id c) (missed_by w.managed.output (length s) p) v
      (rw (on_output-flush m id c) (grown_flush id acc s more m c p w h open_now)) o
watched-Shows id acc {s} c p (other m j n v) h o =
    let open_now : (flush m j c).closed ≡ false =
      rw (on_output-flush m j c) at (run_stays id (on_output m j c) v o) in
    watched-Shows id acc (on_output m j c) p v
      (rw (on_output-flush m j c) (other_flush id j acc s m c n h open_now)) o
watched-Shows id acc {s} c p (pushes n v) h o =
    watched-Shows id acc (enqueue c (pushed n)) p v
      (enqueue-ShowsAt id acc s c (pushed n) (λ a. refl) (run_stays id (enqueue c (pushed n)) v o)
        h)
      o
watched-Shows id acc {s} c p (takes v) h o =
    watched-Shows id acc (take_frame c) p v (taken-ShowsAt id acc s c h) o
