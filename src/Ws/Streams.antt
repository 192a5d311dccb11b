-- ===== src/Ws/Streams.antt =====
-- What a client that joins the output frames of a session sees, against the session's stream.
use shell_watch.Base.{
  ℕ, Bool-cases, ◌≤◌, ◌≡◌, refl, sym, ap, ◌∙◌, true, false, some, String, List, [], ◌∷◌, ◌++◌,
  append_assoc, ◌==◌, if◌then◌else◌, string_eq, lookup, arith, length, take, take-append,
  length-append, inl, inr, nat_eq,
}
use shell_watch.Terminal.Buffer.{FromResult}
use shell_watch.Terminal.Buffer.Stream.{Holds}
use shell_watch.Terminal.Manager.{Managed, Manager}
use shell_watch.Terminal.Manager.Access.{get}
use shell_watch.Ws.{
  Frame, output, closed_frame, status_frame, mode, error_frame, sessions_changed, pushed, Conn,
  enqueue, take_frame, is_attached, is_idle, is_set,
}
use shell_watch.Ws.Flushes.{List-cases}

-- What the client has on its screen after the frames: a reset replaces it, other output is added.
unfoldable pub text : String → List ℕ → List Frame → List ℕ
text id acc [] = acc
text id acc (output i bytes _ reset ∷ fs) =
    text id (if i == id then (if reset then bytes else acc ++ bytes) else acc) fs
text id acc (_ ∷ fs) = text id acc fs

-- The same for a client that gets each frame's data through the JSON encoder: what it decodes. The
-- encoder keeps valid UTF-8 and replaces other bytes, such as those of a rune that a read has split.
unfoldable pub screen : (List ℕ → List ℕ) → String → List ℕ → List Frame → List ℕ
screen json id acc [] = acc
screen json id acc (output i bytes _ reset ∷ fs) =
    screen json id (if i == id then (if reset then json bytes else acc ++ json bytes) else acc) fs
screen json id acc (_ ∷ fs) = screen json id acc fs

-- The encoder keeps the data of the session's frames.
abbrev pub IsKept : (List ℕ → List ℕ) → String → List Frame → Type 0
IsKept json id [] = Unit
IsKept json id (output i bytes _ reset ∷ fs) =
    ((i == id) ≡ true → json bytes ≡ bytes) × IsKept json id fs
IsKept json id (_ ∷ fs) = IsKept json id fs

pub screen-text :
    (json : List ℕ → List ℕ) (id : String) (acc : List ℕ) (fs : List Frame)
    → IsKept json id fs
    → screen json id acc fs ≡ text id acc fs
unfolding screen text
screen-text json id acc [] k = refl
screen-text json id acc (output i b o r ∷ fs) k = elim (Bool-cases (i == id)) [
  | inl q ↦ rw (q, k.0 q) (screen-text json id (if r then b else acc ++ b) fs k.1)
  | inr q ↦ rw q (screen-text json id acc fs k.1)
]
screen-text json id acc (closed_frame i ∷ fs) k = screen-text json id acc fs k
screen-text json id acc (status_frame i st ∷ fs) k = screen-text json id acc fs k
screen-text json id acc (mode i b ∷ fs) k = screen-text json id acc fs k
screen-text json id acc (error_frame e ∷ fs) k = screen-text json id acc fs k
screen-text json id acc (sessions_changed es ∷ fs) k = screen-text json id acc fs k
screen-text json id acc (pushed n ∷ fs) k = screen-text json id acc fs k

abbrev pub history : Conn → List Frame
history c = c.delivered ++ c.out

-- The session is registered, and its ring holds the stream.
pub record Carries (id : String) (m : Manager) (s : List ℕ) : Type 0 where
  pub managed : Managed
  pub there : get m id ≡ some managed
  pub holds : Holds managed.output s

-- From the text `acc` on, the frames show a piece of the stream that ends at the last offset.
pub record Shows (id : String) (acc s : List ℕ) (c : Conn) : Type 0 where
  pub attached : is_attached c id ≡ true
  pub last : ℕ
  pub noted : lookup id c.last_offset ≡ some last
  pub within : last ≤ length s
  pub before : List ℕ
  pub shown : before ++ text id acc (history c) ≡ take last s

pub text-append :
    (id : String) (acc : List ℕ) (fs gs : List Frame)
    → text id acc (fs ++ gs) ≡ text id (text id acc fs) gs
unfolding text
text-append id acc [] gs = refl
text-append id acc (output i b o r ∷ fs) gs =
    text-append id (if i == id then (if r then b else acc ++ b) else acc) fs gs
text-append id acc (closed_frame i ∷ fs) gs = text-append id acc fs gs
text-append id acc (status_frame i st ∷ fs) gs = text-append id acc fs gs
text-append id acc (mode i b ∷ fs) gs = text-append id acc fs gs
text-append id acc (error_frame e ∷ fs) gs = text-append id acc fs gs
text-append id acc (sessions_changed es ∷ fs) gs = text-append id acc fs gs
text-append id acc (pushed n ∷ fs) gs = text-append id acc fs gs

-- A frame that the queue takes is the last of the history.
pub enqueue_open :
    (c : Conn) (f : Frame)
    → (enqueue c f).closed ≡ false
    → (c.closed ≡ false) × (history (enqueue c f) ≡ history c ++ f ∷ [])
unfolding enqueue
enqueue_open c f h = ground (arith, append_assoc c.delivered c.out (f ∷ []))

-- Any frame but an output of the session leaves the text.
abbrev pub Silent : String → Frame → Type 0
Silent id f = (acc : List ℕ) → text id acc (f ∷ []) ≡ acc

pub enqueue_attached :
    (c : Conn) (f : Frame)
    → ((enqueue c f).attached ≡ c.attached) × ((enqueue c f).last_offset ≡ c.last_offset)
unfolding enqueue
enqueue_attached c f = ground arith

pub taken_history : (c : Conn) → history (take_frame c) ≡ history c
unfolding take_frame
taken_history c = elim (List-cases c.out) [
  | inl e ↦ rw (e, take_frame) (ap (λ o. c.delivered ++ o) e)
  | inr (f, fs, e) ↦ rw (e, take_frame) (append_assoc c.delivered (f ∷ []) fs)
]

pub none_read : (r : FromResult) → is_idle r ≡ true → length r.bytes ≡ 0
none_read r i = ground arith

module _ (id : String) (acc s : List ℕ) where
  -- The frames show what `Shows` says, up to the offset `n`, and lack the first `p` bytes.
  abbrev pub ShowsAt : Conn → ℕ → ℕ → Type 0
  ShowsAt c n p = (h : Shows id acc s c) × (h.last ≡ n) × (length h.before ≡ p)

  pub enqueue-ShowsAt :
      (c : Conn) (f : Frame) {n p : ℕ}
      → Silent id f
      → (enqueue c f).closed ≡ false
      → ShowsAt c n p
      → ShowsAt (enqueue c f) n p
  unfolding is_attached
  enqueue-ShowsAt c f q o (h, at, lost) =
      let e = enqueue_open c f o in
      let k = enqueue_attached c f in
      (
        record {
          attached = ap (λ d. is_set (lookup id d)) k.0 ∙ h.attached;
          last = h.last;
          noted = ap (lookup id) k.1 ∙ h.noted;
          within = h.within;
          before = h.before;
          shown =
              rw (e.1, text-append id acc (history c) (f ∷ []), q (text id acc (history c)))
                h.shown;
        },
        at,
        lost,
      )

  pub enqueue-Shows :
      (c : Conn) (f : Frame)
      → Silent id f
      → (enqueue c f).closed ≡ false
      → Shows id acc s c
      → Shows id acc s (enqueue c f)
  enqueue-Shows c f q o h = (enqueue-ShowsAt c f q o (h, refl, refl)).0

  pub taken-ShowsAt : (c : Conn) {n p : ℕ} → ShowsAt c n p → ShowsAt (take_frame c) n p
  unfolding take_frame is_attached
  taken-ShowsAt c (h, at, lost) =
      let k : ((take_frame c).attached ≡ c.attached)
          × ((take_frame c).last_offset ≡ c.last_offset) =
        (ground arith, ground arith) in
      (
        record {
          attached = ap (λ x. is_set (lookup id x)) k.0 ∙ h.attached;
          last = h.last;
          noted = ap (lookup id) k.1 ∙ h.noted;
          within = h.within;
          before = h.before;
          shown = rw (taken_history c) h.shown;
        },
        at,
        lost,
      )

-- A stream that has grown.
pub grown-ShowsAt :
    (id : String) (acc s more : List ℕ) (c : Conn) {n p : ℕ}
    → ShowsAt id acc s c n p
    → ShowsAt id acc (s ++ more) c n p
grown-ShowsAt id acc s more c (h, at, lost) = (
  record {
    attached = h.attached;
    last = h.last;
    noted = h.noted;
    within = omega (arith, h.within, length-append s more);
    before = h.before;
    shown = h.shown ∙ sym (take-append h.last s more h.within);
  },
  at,
  lost,
)
