-- ===== src/Terminal/Manager/Delivery.antt =====
-- internal/terminal/manager.go: how the events reach a subscriber. A goroutine makes its event under
-- the lock and calls the subscribers after it has unlocked, so that between the two any other
-- goroutine may make an event and call them with it.
use shell_watch.Base.{
  ℕ, zero, suc, false, ◌||◌, ◌+◌, ◌≤◌, ◌≡◌, refl, sym, ap, ◌∙◌, Option, none, some, String, List,
  [], ◌∷◌, ◌++◌, arith, if◌then◌else◌, lookup, lookup-insert, string_eq, ==-refl,
}
use shell_watch.Terminal.{Status, opening, open_now, closing, closed, Status-discrete, CloseReason}
use shell_watch.Terminal.Manager.{
  Managed, Manager, Event, StatusEvent, status_changed, output_grew, removed, is_status, is_ignored,
  stamp, with_status, begin_closing, set_status, change,
}
use shell_watch.Terminal.Manager.Steps.{
  Section, begins_closing, finishes, perform, run, NeverRegisters, IsNamed, chain,
}
use shell_watch.Terminal.Manager.Lifecycle.{entries, run_lifecycle}

-- The manager, the events that are made and not handed over yet, and what the subscriber heard.
pub record Board : Type 0 where
  pub manager : Manager
  pub due : List Event
  pub heard : List Event

abbrev pub board : Manager → Board
board m = record { manager = m; due = []; heard = [] }

-- A section under the lock, or the call of the subscriber with one of the events that are due.
pub data Act : Type 0 where
  runs : Section → Act
  hands_over : ℕ → Act

unfoldable pub take_at : ℕ → List Event → Option (Event × List Event)
take_at n [] = none
take_at zero (e ∷ es) = some (e, es)
take_at (suc n) (e ∷ es) = elim (take_at n es) [ none ↦ none | some (f, fs) ↦ some (f, e ∷ fs) ]

-- `for _, fn := range subs { fn(ev) }`
unfoldable pub hand_over : Board → ℕ → Board
unfolding take_at
hand_over b n = elim (take_at n b.due) [
  | none ↦ b
  | some (e, es) ↦ record b { due = es; heard = b.heard ++ e ∷ [] }
]

abbrev pub act : Board → Act → Board
act b (runs c) = let p = perform b.manager c in record b { manager = p.0; due = b.due ++ p.1 }
act b (hands_over n) = hand_over b n

unfoldable pub act_all : Board → List Act → Board
act_all b [] = b
act_all b (a ∷ acts) = act_all (act b a) acts

-- The sections of a schedule, in the order in which they have the lock.
abbrev pub sections : List Act → List Section
sections [] = []
sections (runs c ∷ acts) = c ∷ sections acts
sections (hands_over _ ∷ acts) = sections acts

hand_over-manager : (b : Board) (n : ℕ) → (hand_over b n).manager ≡ b.manager
unfolding hand_over
hand_over-manager b n = ground arith

act_all-manager :
    (b : Board) (acts : List Act) → (act_all b acts).manager ≡ (run b.manager (sections acts)).0
unfolding act_all run
act_all-manager b [] = refl
act_all-manager b (runs c ∷ acts) = act_all-manager (act b (runs c)) acts
act_all-manager b (hands_over n ∷ acts) =
    act_all-manager (hand_over b n) acts
    ∙ ap (λ x. (run x (sections acts)).0) (hand_over-manager b n)

module _ (id : String) (st : Status) where
  entries-append :
      (es fs : List Event) → entries id st (es ++ fs) ≡ entries id st es + entries id st fs
  entries-append [] fs = omega arith
  entries-append (output_grew _ _ ∷ es) fs = entries-append es fs
  entries-append (removed _ ∷ es) fs = entries-append es fs
  entries-append (status_changed ev ∷ es) fs = omega (arith, entries-append es fs)

  -- Taking an event out takes its entry out.
  entries-take_at :
      (n : ℕ) (es : List Event) (e : Event) (rest : List Event)
      → take_at n es ≡ some (e, rest)
      → entries id st es ≡ entries id st (e ∷ []) + entries id st rest
  unfolding take_at
  entries-take_at n [] e rest q = cc
  entries-take_at zero (x ∷ es) e rest q =
      let same : x ≡ e = ground arith in
      let left : es ≡ rest = ground arith in rw (sym same, sym left) (entries-append (x ∷ []) es)
  entries-take_at (suc n) (x ∷ es) e rest q =
      go (take_at n es) refl (λ f fs k. entries-take_at n es f fs k)
    where
      go :
          (o : Option (Event × List Event))
          → take_at n es ≡ o
          → ((f : Event) (fs : List Event)
              → take_at n es ≡ some (f, fs)
              → entries id st es ≡ entries id st (f ∷ []) + entries id st fs)
          → entries id st (x ∷ es) ≡ entries id st (e ∷ []) + entries id st rest
      go none k later = absurd (let no : none ≡ some (e, rest) = rw k at q in ground arith)
      go (some (f, fs)) k later =
          let it : some (f, x ∷ fs) ≡ some (e, rest) = rw k at q in
          let same : f ≡ e = ground arith in
          let left : x ∷ fs ≡ rest = ground arith in
          let ih = later f fs k in
          rw (sym same, sym left)
            (omega (arith, ih, entries-append (x ∷ []) es, entries-append (x ∷ []) fs))

  -- What is due and what was heard, together.
  abbrev made : Board → ℕ
  made b = entries id st b.due + entries id st b.heard

  hand_over-made : (b : Board) (n : ℕ) → made (hand_over b n) ≡ made b
  unfolding hand_over
  hand_over-made b n = go (take_at n b.due) refl
    where
      go : (o : Option (Event × List Event)) → take_at n b.due ≡ o → made (hand_over b n) ≡ made b
      go none k = rw (k, hand_over) refl
      go (some (e, es)) k =
          rw (k, hand_over)
            (omega (arith, entries-take_at n b.due e es k, entries-append b.heard (e ∷ [])))

  act_all-made :
      (b : Board) (acts : List Act)
      → made (act_all b acts) ≡ made b + entries id st (run b.manager (sections acts)).1
  unfolding act_all run
  act_all-made b [] = omega arith
  act_all-made b (runs c ∷ acts) =
      let p = perform b.manager c in
      omega (
        arith,
        act_all-made (act b (runs c)) acts,
        entries-append b.due p.1,
        entries-append p.1 (run p.0 (sections acts)).1,
      )
  act_all-made b (hands_over n ∷ acts) =
      let ih = act_all-made (hand_over b n) acts in
      let same = ap (λ x. entries id st (run x (sections acts)).1) (hand_over-manager b n) in
      omega (arith, ih, hand_over-made b n, same)

-- Goroutines run sections under the lock and hand their events over afterwards, all in any order. In a
-- manager whose objects stand under their session ids, and of a session whose id is not registered
-- again: the status events made under the lock, in the order of the sections, form one chain of
-- allowed transitions from the session's status before to its status after, each with the status
-- before it as the previous one; closed is for ever; and a close reason, once given, stays. Of each
-- status the subscriber has heard, or is still to hear, as often as it was made: closed at most
-- once, and not at all if the session was closed, open at most once, and only if it was opening.
pub deliveries_once :
    (id : String) (m : Manager) (acts : List Act) (g : Managed)
    → IsNamed m
    → NeverRegisters id (sections acts)
    → lookup id m.objects ≡ some g
    → let b = act_all (board m) acts in
      let events = (run m (sections acts)).1 in
      (g' : Managed) × (lookup id b.manager.objects ≡ some g')
      × (chain id g.session.status events ≡ some g'.session.status)
      × ((st : Status) → entries id st b.due + entries id st b.heard ≡ entries id st events)
      × (entries id closed b.heard ≤ (if is_status g.session.status closed then 0 else 1))
      × (entries id open_now b.heard ≤ (if is_status g.session.status opening then 1 else 0))
      × (g.session.status ≡ closed → g'.session.status ≡ closed)
      × ((r : CloseReason) → g.session.close_reason ≡ some r → g'.session.close_reason ≡ some r)
deliveries_once id m acts g n fresh e =
    let (g', found, led, c, o, stays, reason) = run_lifecycle id m (sections acts) g n fresh e in
    let b = act_all (board m) acts in
    let kept : (st : Status)
        → entries id st b.due + entries id st b.heard ≡ entries id st (run m (sections acts)).1 =
      λ st. (let all = act_all-made id st (board m) acts in omega (arith, all)) in
    (
      g',
      rw (act_all-manager (board m) acts) found,
      led,
      kept,
      omega (arith, kept closed, c),
      omega (arith, kept open_now, o),
      stays,
      reason,
    )

-- A close has marked an open session as closing, but its goroutine has not called the subscriber
-- yet, when the pump ends: it marks the session as closed and calls the subscriber first.
abbrev overtaking : String → Option CloseReason → List Act
overtaking id reason =
    runs (begins_closing id reason) ∷ runs (finishes id none) ∷ hands_over 1 ∷ hands_over 0 ∷ []

begins :
    (m : Manager) (id : String) (g : Managed) (reason : Option CloseReason)
    → lookup id m.objects ≡ some g
    → g.session.status ≡ open_now
    → perform m (begins_closing id reason) ≡ change m id g closing reason
unfolding perform begin_closing Status-discrete
begins m id g reason e was =
    let free : (is_status g.session.status closed || is_status g.session.status closing) ≡ false =
      rw was refl in
    rw (e, begin_closing) (rw free refl)

finished :
    (m : Manager) (id : String) (g : Managed)
    → lookup id m.objects ≡ some g
    → g.session.status ≡ closing
    → perform m (finishes id none) ≡ change m id g closed none
unfolding perform set_status Status-discrete
finished m id g e was =
    let free : is_ignored g.session.status closed ≡ false = rw was refl in
    rw (e, set_status) (rw free refl)

-- For an open session there is an order of two sections and their calls, that of a close by a client
-- and that of the end of its pump, in which the subscriber hears that the session is closed before
-- it hears that it is closing, so that what it hears in all is no chain of transitions.
close_overtakes :
    (id : String) (m : Manager) (g : Managed) (reason : Option CloseReason)
    → lookup id m.objects ≡ some g
    → g.session.session_id ≡ id
    → g.session.status ≡ open_now
    → (last : StatusEvent) × (first : StatusEvent) × ((act_all
          (board m)
          (overtaking id reason)).heard
        ≡ status_changed last ∷ status_changed first ∷ [])
      × (first.status ≡ closing)
      × (last.previous ≡ closing)
      × (last.status ≡ closed)
      × (chain id open_now (act_all (board m) (overtaking id reason)).heard ≡ none)
unfolding act_all
close_overtakes id m g reason e own was =
    let p = change m id g closing reason in
    let g1 = with_status g closing (stamp reason g.session.close_reason) in
    let found : lookup id p.0.objects ≡ some g1 =
      lookup-insert id id g1 m.objects ∙ rw (==-refl id) refl in
    let q = change p.0 id g1 closed none in
    let begun : perform m (begins_closing id reason) ≡ p = begins m id g reason e was in
    let ended : perform p.0 (finishes id none) ≡ q = finished p.0 id g1 found refl in
    let all : (act_all (board m) (overtaking id reason)).heard ≡ q.1 ++ p.1 =
      unfold hand_over take_at in rw begun (rw ended refl) in
    (
      _,
      _,
      all,
      refl,
      refl,
      refl,
      rw all (unfold chain Status-discrete in rw (own, ==-refl id) refl),
    )
