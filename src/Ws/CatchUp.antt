-- ===== src/Ws/CatchUp.antt =====
-- A flush brings the text of the client to the end of the session's stream.
use shell_watch.Base.{
  ℕ, ◌≤◌, ◌≡◌, refl, sym, ap, ◌∙◌, true, false, some, String, List, [], ◌∷◌, ◌++◌, append_assoc,
  ==-refl, if◌then◌else◌, string_eq, lookup, insert, lookup-insert, arith, length, take,
  take-append-drop, length-append, length-take, take_all, ltb, Bool-cases, inl, inr, pos, nat_eq,
}
use shell_watch.Terminal.Buffer.{OutputBuffer, FromResult, read_from}
use shell_watch.Terminal.Buffer.Stream.{Holds}
use shell_watch.Terminal.Buffer.Reads.{read_from-Holds}
use shell_watch.Terminal.Manager.{Managed, Manager}
use shell_watch.Terminal.Manager.Access.{get, read_output_from}
use shell_watch.Ws.{output, Conn, is_attached, flush, is_idle, is_set}
use shell_watch.Ws.Flushes.{told, read_for, flush_idle, flush_sends}
use shell_watch.Ws.Streams.{
  text, history, Carries, Shows, enqueue_open, enqueue_attached, none_read, text-append,
}

-- How much of the stream's start a client lacks that has `p` less than all, at the offset `n`, once it
-- has read from the ring: the ring's own start, where that is past the offset.
abbrev pub missed_by : OutputBuffer → ℕ → ℕ → ℕ
missed_by b n p = if ltb n b.base_offset then b.base_offset else p

-- A read within the stream is reset exactly if the ring has dropped what it asks for.
reset_late :
    (b : OutputBuffer) (s : List ℕ) (n : ℕ)
    → Holds b s
    → n ≤ length s
    → (read_from b (some (pos n))).reset ≡ ltb n b.base_offset
unfolding read_from
reset_late b s n h l = ground (arith, h.total)

base_within : (b : OutputBuffer) (s : List ℕ) → Holds b s → b.base_offset ≤ length s
base_within b s h = omega (arith, h.total)

-- What a flush that has news makes of the text.
pub told_appears :
    (id : String) (acc : List ℕ) (r : FromResult) (c : Conn)
    → (told id r c).closed ≡ false
    → text id acc (history (told id r c))
      ≡ (if r.reset then r.bytes else text id acc (history c) ++ r.bytes)
unfolding text
told_appears id acc r c o =
    let c1 : Conn = record c { last_offset = insert id r.offset c.last_offset } in
    let q : history (told id r c) ≡ history c ++ output id r.bytes r.offset r.reset ∷ [] =
      (enqueue_open c1 (output id r.bytes r.offset r.reset) o).1 in
    rw (q, text-append id acc (history c) (output id r.bytes r.offset r.reset ∷ []), ==-refl id)
      refl

pub told_shows :
    (id : String) (acc s : List ℕ) (b : OutputBuffer) (c : Conn) (n : ℕ) (before : List ℕ)
    → Holds b s
    → n ≤ length s
    → before ++ text id acc (history c) ≡ take n s
    → (told id (read_from b (some (pos n))) c).closed ≡ false
    → (front : List ℕ) × (front ++ text id acc (history (told id (read_from b (some (pos n))) c))
        ≡ s)
      × (length front ≡ missed_by b n (length before))
told_shows id acc s b c n before h l e o =
    let v = (read_from-Holds b s (pos n) h).2 in
    let q = told_appears id acc (read_from b (some (pos n))) c o in
    elim (Bool-cases (read_from b (some (pos n))).reset) [
      | inl t ↦ (
        take b.base_offset s,
        rw (q, t, v.1 t, h.window) (take-append-drop b.base_offset s),
        rw (sym (reset_late b s n h l), t)
            (length-take b.base_offset s ∙ ground (arith, base_within b s h)),
      )
      | inr t ↦ (
        before,
        rw (q, t)
            (sym (append_assoc before (text id acc (history c)) (read_from b (some (pos n))).bytes)
              ∙ rw e (v.3 t)),
        rw (sym (reset_late b s n h l), t) refl,
      )
    ]

-- A read that has no news was at the end.
pub idle_end :
    (b : OutputBuffer) (s : List ℕ) (n : ℕ)
    → Holds b s
    → n ≤ length s
    → is_idle (read_from b (some (pos n))) ≡ true
    → n ≡ length s
idle_end b s n h k i =
    let v = (read_from-Holds b s (pos n) h).2 in
    let r : FromResult = read_from b (some (pos n)) in
    let e : take n s ++ r.bytes ≡ s = v.3 (ground arith) in
    omega (arith, ap length e, length-append (take n s) r.bytes, length-take n s, none_read r i)

pub read_carried :
    (id : String) (m : Manager) (c : Conn) (g : Managed) (n : ℕ)
    → get m id ≡ some g
    → lookup id c.last_offset ≡ some n
    → read_for m id c ≡ some (read_from g.output (some (pos n)))
unfolding read_output_from
read_carried id m c g n e k = rw k (rw e refl)

pub told-Shows :
    (id : String) (acc s : List ℕ) (b : OutputBuffer) (c : Conn)
    → Holds b s
    → (h : Shows id acc s c) → (told id (read_from b (some (pos h.last))) c).closed ≡ false
    → (w : Shows id acc s (told id (read_from b (some (pos h.last))) c)) × (w.last ≡ length s)
      × (length w.before ≡ missed_by b h.last (length h.before))
unfolding is_attached
told-Shows id acc s b c k h o =
    let r : FromResult = read_from b (some (pos h.last)) in
    let c1 : Conn = record c { last_offset = insert id r.offset c.last_offset } in
    let same = enqueue_attached c1 (output id r.bytes r.offset r.reset) in
    let v = (read_from-Holds b s (pos h.last) k).2 in
    let front = told_shows id acc s b c h.last h.before k h.within h.shown o in
    (
      record {
        attached = ap (λ x. is_set (lookup id x)) same.0 ∙ h.attached;
        last = r.offset;
        noted =
            ap (lookup id) same.1
            ∙ lookup-insert id id r.offset c.last_offset
            ∙ rw (==-refl id) refl;
        within = rw v.0 (omega arith);
        before = front.0;
        shown = front.1 ∙ sym (take_all r.offset s (rw v.0 (omega arith)));
      },
      v.0,
      front.2,
    )

-- A flush against a manager that carries the stream brings the client to its end.
pub flush_catches_up :
    (id : String) (acc s : List ℕ) (m : Manager) (c : Conn)
    → (w : Carries id m s) → (h : Shows id acc s c) → (flush m id c).closed ≡ false
    → (h' : Shows id acc s (flush m id c)) × (h'.last ≡ length s)
      × (length h'.before ≡ missed_by w.managed.output h.last (length h.before))
flush_catches_up id acc s m c w h o =
    let r : FromResult = read_from w.managed.output (some (pos h.last)) in
    let got : read_for m id c ≡ some r = read_carried id m c w.managed h.last w.there h.noted in
    elim (Bool-cases (is_idle r)) [
      | inl i ↦ rw (flush_idle m id c r got i) (
        h,
        idle_end w.managed.output s h.last w.holds h.within i,
        ground (
          arith,
          base_within w.managed.output s w.holds,
          idle_end w.managed.output s h.last w.holds h.within i,
        ),
      )
      | inr i ↦ rw (flush_sends m id c r h.attached got i) (
          told-Shows id acc s w.managed.output c w.holds h
            (rw (flush_sends m id c r h.attached got i) at o))
    ]
