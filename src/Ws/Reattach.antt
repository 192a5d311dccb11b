-- ===== src/Ws/Reattach.antt =====
-- A second attach to a session that the connection already shows, with a flush between its read of
-- the buffer and its frames.
use shell_watch.Base.{
  ℕ, ◌+◌, ◌≤◌, ◌<◌, ◌≡◌, ◌≢◌, refl, sym, ap, ◌∙◌, subst, Bool, true, false, some, String, List, [],
  ◌∷◌, ◌++◌, append_assoc, append-nil, ==-refl, string_eq, lookup, insert, lookup-insert, arith,
  length, take, length-append, pos, if◌then◌else◌, nat_eq,
}
use shell_watch.Terminal.{Status}
use shell_watch.Terminal.Buffer.{OutputBuffer, FromResult, read_from}
use shell_watch.Terminal.Buffer.Stream.{Holds}
use shell_watch.Terminal.Buffer.Reads.{read_from-Holds}
use shell_watch.Terminal.Manager.{Manager}
use shell_watch.Ws.{
  Frame, output, status_frame, mode, Conn, enqueue, is_attached, attach_with_catch_up, flush,
  is_idle, is_set, queue_size,
}
use shell_watch.Ws.Router.{output_frames}
use shell_watch.Ws.Flushes.{told, flush_sends}
use shell_watch.Ws.Streams.{text, history, Carries, text-append}
use shell_watch.Ws.CatchUp.{told_appears, read_carried}

cancel_left : (s xs ys : List ℕ) → s ++ xs ≡ s ++ ys → xs ≡ ys
cancel_left [] xs ys e = e
cancel_left (x ∷ s) xs ys e = cancel_left s xs ys (ap tail_of e)
  where
    tail_of : List ℕ → List ℕ
    tail_of [] = []
    tail_of (_ ∷ zs) = zs

take-length : (s xs : List ℕ) → take (length s) (s ++ xs) ≡ s
take-length [] xs = refl
take-length (x ∷ s) xs = ap (◌∷◌ x) (take-length s xs)

-- A read from the end of a stream that has grown.
read_more :
    (b : OutputBuffer) (s more : List ℕ)
    → Holds b (s ++ more)
    → b.base_offset ≤ length s
    → ((read_from b (some (pos (length s)))).reset ≡ false)
      × ((read_from b (some (pos (length s)))).bytes ≡ more)
read_more b s more h k =
    let r : FromResult = read_from b (some (pos (length s))) in
    let v = (read_from-Holds b (s ++ more) (pos (length s)) h).2 in
    let quiet : r.reset ≡ false = v.2.1 (refl, k, omega (arith, length-append s more)) in
    (
      quiet,
      cancel_left s r.bytes more (ap (λ x. x ++ r.bytes) (sym (take-length s more)) ∙ v.3 quiet),
    )

enqueue_room :
    (c : Conn) (f : Frame)
    → c.closed ≡ false
    → length c.out < queue_size
    → enqueue c f ≡ record c { out = c.out ++ f ∷ [] }
unfolding enqueue
enqueue_room c f h k = ground arith

-- A frame that brings more than nothing.
has_news : (r : FromResult) (more : List ℕ) → r.bytes ≡ more → more ≢ [] → is_idle r ≡ false
has_news r [] e n = absurd (n refl)
has_news r (x ∷ more) e n = ground (arith, ap length e)

idle_nil : (r : FromResult) → r.bytes ≡ [] → r.reset ≡ false → is_idle r ≡ true
unfolding nat_eq
idle_nil r e q = rw (e, q) refl

-- A connection that shows the whole stream flushes what has been added.
flush_adds :
    (id : String) (acc s more : List ℕ) (m : Manager) (c : Conn)
    → (w : Carries id m (s ++ more)) → w.managed.output.base_offset ≤ length s
    → more ≢ []
    → is_attached c id ≡ true
    → lookup id c.last_offset ≡ some (length s)
    → c.closed ≡ false
    → length c.out < queue_size
    → (f : Frame) × (flush m id c ≡ record c {
      last_offset = insert id (length s + length more) c.last_offset;
      out = c.out ++ f ∷ [];
    })
      × (text id acc (history (flush m id c)) ≡ text id acc (history c) ++ more)
flush_adds id acc s more m c w k n a l o room =
    let r : FromResult = read_from w.managed.output (some (pos (length s))) in
    let f : Frame = output id r.bytes r.offset r.reset in
    let v = read_more w.managed.output s more w.holds k in
    let at : r.offset ≡ length s + length more =
      (read_from-Holds w.managed.output (s ++ more) (pos (length s)) w.holds).2.0
      ∙ length-append s more in
    let c1 : Conn = record c { last_offset = insert id r.offset c.last_offset } in
    let fits : enqueue c1 f ≡ record c1 { out = c.out ++ f ∷ [] } = enqueue_room c1 f o room in
    let sends : flush m id c ≡ told id r c =
      flush_sends m id c r a (read_carried id m c w.managed (length s) w.there l)
        (has_news r more v.1 n) in
    (
      f,
      sends
          ∙ fits
          ∙ ap
              (λ (x : ℕ). record c {
                last_offset = insert id x c.last_offset;
                out = c.out ++ f ∷ [];
              })
              at,
      rw sends
          (told_appears id acc r c (ap (λ (d : Conn). d.closed) fits ∙ o) ∙ rw (v.0, v.1) refl),
    )

-- The frames of an attach that has nothing to catch up.
quiet_attach :
    (id : String) (acc : List ℕ) (control shown : Bool) (st : Status) (offset : ℕ) (d : Conn)
    → d.closed ≡ false
    → length d.out < 254
    → let e = attach_with_catch_up d id control offset (status_frame id st ∷ mode id shown ∷ []) in
      (is_attached e id ≡ true)
      × (lookup id e.last_offset ≡ some offset)
      × (e.closed ≡ false)
      × (length e.out ≡ length d.out + 2)
      × (text id acc (history e) ≡ text id acc (history d))
unfolding attach_with_catch_up text is_attached
quiet_attach id acc control shown st offset d o room =
    let f : Frame = status_frame id st in
    let g : Frame = mode id shown in
    let d0 : Conn = record d {
      attached = insert id true d.attached;
      controlled = if control then insert id true d.controlled else d.controlled;
      last_offset = insert id offset d.last_offset;
    } in
    let d1 : Conn = record d0 { out = d.out ++ f ∷ [] } in
    let d2 : Conn = record d0 { out = (d.out ++ f ∷ []) ++ g ∷ [] } in
    let one : length (d.out ++ f ∷ []) ≡ length d.out + 1 = length-append d.out (f ∷ []) in
    let first : enqueue d0 f ≡ d1 = enqueue_room d0 f o (omega arith) in
    let second : enqueue d1 g ≡ d2 = enqueue_room d1 g o (omega arith) in
    let all : enqueue (enqueue d0 f) g ≡ d2 = ap (λ x. enqueue x g) first ∙ second in
    rw all (
      ap is_set (lookup-insert id id true d.attached) ∙ rw (==-refl id) refl,
      lookup-insert id id offset d.last_offset ∙ rw (==-refl id) refl,
      o,
      omega (arith, one, length-append (d.out ++ f ∷ []) (g ∷ [])),
      ap (text id acc) (
            sym (append_assoc d.delivered (d.out ++ f ∷ []) (g ∷ []))
            ∙ ap (λ x. x ++ g ∷ []) (sym (append_assoc d.delivered d.out (f ∷ []))))
          ∙ text-append id acc (history d ++ f ∷ []) (g ∷ [])
          ∙ text-append id acc (history d) (f ∷ []),
    )

-- A read by a client that has the whole stream brings nothing.
read_end :
    (b : OutputBuffer) (id : String) (s : List ℕ)
    → Holds b s
    → (output_frames id (read_from b (some (pos (length s)))) ≡ [])
      × ((read_from b (some (pos (length s)))).offset ≡ length s)
read_end b id s h =
    let r : FromResult = read_from b (some (pos (length s))) in
    let v = read_more b s [] (subst (Holds b) (sym (append-nil s)) h) (omega (arith, h.total)) in
    (rw (idle_nil r v.1 v.0) refl, (read_from-Holds b s (pos (length s)) h).2.0)

-- A client whose connection shows all of a session's stream attaches to the session again, from the
-- offset at which its copy ends. If output is added and flushed after the attach has read the
-- buffer and before it has queued its frames, then the flush at the end of the attach sends the
-- same output again: the client shows it twice. The ring is taken to hold all that was added, and
-- the queue to have room.
pub reattach_repeats :
    (id : String) (acc s more : List ℕ) (st : Status) (control shown : Bool) (b : OutputBuffer)
    (m : Manager) (c : Conn)
    → (w : Carries id m (s ++ more)) → w.managed.output.base_offset ≤ length s
    → more ≢ []
    → Holds b s
    → is_attached c id ≡ true
    → lookup id c.last_offset ≡ some (length s)
    → c.closed ≡ false
    → length c.out < 250
    → text id acc (
        history (
          flush m id (
            attach_with_catch_up
              (flush m id c)
              id
              control
              (read_from b (some (pos (length s)))).offset
              (status_frame id st
                ∷ mode id shown
                ∷ output_frames id (read_from b (some (pos (length s))))))))
      ≡ (text id acc (history c) ++ more) ++ more
reattach_repeats id acc s more st control shown b m c w k n h a l o room =
    let r = read_end b id s h in
    let one = flush_adds id acc s more m c w k n a l o (omega arith) in
    let d : Conn = flush m id c in
    let size : length d.out ≡ length c.out + 1 =
      ap (λ (x : Conn). length x.out) one.1 ∙ length-append c.out (one.0 ∷ []) in
    let open_still : d.closed ≡ false = ap (λ (x : Conn). x.closed) one.1 ∙ o in
    let e = quiet_attach id acc control shown st (length s) d open_still (omega arith) in
    let two = flush_adds id acc s more m _ w k n e.0 e.1 e.2 (omega (arith, e.3)) in
    rw (r.0, r.1) (two.2 ∙ ap (λ x. x ++ more) (e.4 ∙ one.2))
