-- ===== src/Ws/Flushes.antt =====
-- What a flush does, by cases.
use shell_watch.Base.{
  ◌≡◌, refl, sym, ◌∙◌, true, false, Option, none, some, String, List, [], ◌∷◌, ◌==◌, ==→≡,
  string_eq, lookup, insert, Bool-cases, Option-cases, inl, inr, ◌⊎◌, pos,
}
use shell_watch.Terminal.Buffer.{FromResult}
use shell_watch.Terminal.Manager.{Manager}
use shell_watch.Terminal.Manager.Access.{read_output_from}
use shell_watch.Ws.{Frame, output, Conn, enqueue, is_attached, flush, is_idle, or_zero}

abbrev pub read_for : Manager → String → Conn → Option FromResult
read_for m id c = read_output_from m id (some (pos (or_zero (lookup id c.last_offset))))

abbrev pub told : String → FromResult → Conn → Conn
told id r c =
    enqueue (record c { last_offset = insert id r.offset c.last_offset })
      (output id r.bytes r.offset r.reset)

-- What the flush sent, if it sent anything.
pub record Sent (m : Manager) (id : String) (c : Conn) (r : FromResult) : Type 0 where
  pub to : is_attached c id ≡ true
  pub got : read_for m id c ≡ some r
  pub news : is_idle r ≡ false
  pub gives : flush m id c ≡ told id r c

pub flush_detached :
    (m : Manager) (id : String) (c : Conn) → is_attached c id ≡ false → flush m id c ≡ c
unfolding flush
flush_detached m id c h = rw h refl

pub flush_missing :
    (m : Manager) (id : String) (c : Conn) → read_for m id c ≡ none → flush m id c ≡ c
unfolding flush
flush_missing m id c h = elim (Bool-cases (is_attached c id)) [
  | inr a ↦ rw a refl
  | inl a ↦ rw (a, h, flush) refl
]

pub flush_idle :
    (m : Manager) (id : String) (c : Conn) (r : FromResult)
    → read_for m id c ≡ some r
    → is_idle r ≡ true
    → flush m id c ≡ c
unfolding flush
flush_idle m id c r h i = elim (Bool-cases (is_attached c id)) [
  | inr a ↦ rw a refl
  | inl a ↦ rw (a, h, flush) (rw i refl)
]

pub flush_sends :
    (m : Manager) (id : String) (c : Conn) (r : FromResult)
    → is_attached c id ≡ true
    → read_for m id c ≡ some r
    → is_idle r ≡ false
    → flush m id c ≡ told id r c
unfolding flush
flush_sends m id c r a h i = rw (a, h, flush) (rw i refl)

pub flush_cases :
    (m : Manager) (id : String) (c : Conn) → (flush m id c ≡ c) ⊎ ((r : FromResult) × Sent m id c r)
flush_cases m id c = elim (Bool-cases (is_attached c id)) [
  | inr a ↦ inl (flush_detached m id c a)
  | inl a ↦ elim (Option-cases (read_for m id c)) [
    | inl h ↦ inl (flush_missing m id c h)
    | inr (r, h) ↦ elim (Bool-cases (is_idle r)) [
      | inl i ↦ inl (flush_idle m id c r h i)
      | inr i ↦ inr (r, record { to = a; got = h; news = i; gives = flush_sends m id c r a h i })
    ]
  ]
]

-- A session that is attached is not one that is not.
pub attached_apart :
    (c : Conn) (i j : String) → is_attached c j ≡ true → is_attached c i ≡ false → (j == i) ≡ false
attached_apart c i j h e = elim (Bool-cases (j == i)) [
  | inr n ↦ n
  | inl s ↦ absurd (differ (sym (rw (==→≡ j i s) at h) ∙ e))
]
  where
    differ : true ≡ false → ⊥
    differ e = cc

pub is_attached-none :
    (c : Conn) (id : String) → lookup id c.attached ≡ none → is_attached c id ≡ false
unfolding is_attached
is_attached-none c id h = rw h refl

pub List-cases : (fs : List Frame) → (fs ≡ []) ⊎ ((f : Frame) × (gs : List Frame) × (fs ≡ f ∷ gs))
List-cases [] = inl refl
List-cases (f ∷ gs) = inr (f, gs, refl)
