-- ===== src/Approval/History.antt =====
-- Histories of calls on the store, and what counts the effects that end an action.
use shell_watch.Base.{
  ℕ, ◌+◌, ◌≤◌, ◌≡◌, refl, Option, none, some, String, List, [], ◌∷◌, ◌++◌, arith, ◌==◌,
  if◌then◌else◌, lookup, insert, lookup-insert, string_eq,
}
use shell_watch.Approval.{
  Action, CreateParams, SignResponse, Effect, created, resolves_sign, resolves_key, rejects,
  resolved,
}
use shell_watch.Approval.Store.{
  Actions, is_pending, resolve_sign, resolve_key, deny, create, cancel_for_connection, sweep,
}

-- A call on the store, with the clock's readings.
pub data Call : Type 0 where
  creates : CreateParams → String → ℕ → Call
  resolves_signs : String → SignResponse → ℕ → ℕ → Call
  approves_key denies : String → ℕ → ℕ → Call
  cancels : String → String → ℕ → Call
  sweeps : ℕ → ℕ → Call

-- The map's keys are the ids of its actions, each once.
abbrev pub Keyed : Actions → Type 0
Keyed [] = Unit
Keyed ((k, a) ∷ d) = (a.id ≡ k) × (lookup k d ≡ none) × Keyed d

-- The state and the effects of a call.
unfoldable pub step : Actions → Call → Actions × List Effect
step s (creates p id now) = let (s', _, es) = create s p id now in (s', es)
step s (resolves_signs id resp now later) =
    let (s', _, es) = resolve_sign s id resp now later in (s', es)
step s (approves_key id now later) = let (s', _, es) = resolve_key s id now later in (s', es)
step s (denies id now later) = let (s', _, es) = deny s id now later in (s', es)
step s (cancels c reason later) =
    let (s', _, es) = cancel_for_connection s c reason later in (s', es)
step s (sweeps now later) = sweep s now later

unfoldable pub run : Actions → List Call → Actions × List Effect
run s [] = (s, [])
run s (c ∷ cs) = let (s', es) = step s c in let (t, fs) = run s' cs in (t, es ++ fs)

-- How many events of the list end the action `id`.
abbrev pub events : String → List Effect → ℕ
events id [] = 0
events id (resolved ev ∷ es) = (if ev.action.id == id then 1 else 0) + events id es
events id (_ ∷ es) = events id es

-- How many calls of the callbacks of the action `id` the list has.
abbrev pub callbacks : String → List Effect → ℕ
callbacks id [] = 0
callbacks id (resolves_sign i _ ∷ es) = (if i == id then 1 else 0) + callbacks id es
callbacks id (resolves_key i ∷ es) = (if i == id then 1 else 0) + callbacks id es
callbacks id (rejects i _ ∷ es) = (if i == id then 1 else 0) + callbacks id es
callbacks id (_ ∷ es) = callbacks id es

-- 1 while the action is there and pending.
abbrev pub pend : Option Action → ℕ
pend none = 0
pend (some a) = if is_pending a.status then 1 else 0

pub events-append :
    (id : String) (es fs : List Effect) → events id (es ++ fs) ≡ events id es + events id fs
events-append id [] fs = omega arith
events-append id (created a ∷ es) fs = events-append id es fs
events-append id (resolves_sign i r ∷ es) fs = events-append id es fs
events-append id (resolves_key i ∷ es) fs = events-append id es fs
events-append id (rejects i e ∷ es) fs = events-append id es fs
events-append id (resolved ev ∷ es) fs = omega (arith, events-append id es fs)

pub callbacks-append :
    (id : String) (es fs : List Effect)
    → callbacks id (es ++ fs) ≡ callbacks id es + callbacks id fs
callbacks-append id [] fs = omega arith
callbacks-append id (created a ∷ es) fs = callbacks-append id es fs
callbacks-append id (resolves_sign i r ∷ es) fs = omega (arith, callbacks-append id es fs)
callbacks-append id (resolves_key i ∷ es) fs = omega (arith, callbacks-append id es fs)
callbacks-append id (rejects i e ∷ es) fs = omega (arith, callbacks-append id es fs)
callbacks-append id (resolved ev ∷ es) fs = callbacks-append id es fs

-- The effects end `id` as often as it stops being pending, and call it no more often.
abbrev pub Closes : String → Option Action → Option Action → List Effect → Type 0
Closes id before after es =
    (events id es + pend after ≡ pend before) × (callbacks id es ≤ events id es)

pub lookup-Keyed :
    (id : String) (s : Actions) (a : Action) → Keyed s → lookup id s ≡ some a → a.id ≡ id
unfolding lookup
lookup-Keyed id [] a k h = cc
lookup-Keyed id ((j, b) ∷ d) a k h = ground (arith, lookup-Keyed id d a k.2)

pub insert-Keyed :
    (id : String) (a : Action) (s : Actions) → a.id ≡ id → Keyed s → Keyed (insert id a s)
unfolding insert lookup
insert-Keyed id a [] h k = (h, refl, tt)
insert-Keyed id a ((j, b) ∷ d) h k =
    ground (arith, insert-Keyed id a d h k.2, lookup-insert j id a d)
