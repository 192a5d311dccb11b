-- ===== src/Terminal/Manager/Lifecycle.antt =====
-- The life of a session under every interleaving.
use shell_watch.Base.{
  ℕ, ◌+◌, ◌≤◌, ◌≡◌, ◌≢◌, refl, ap, ◌∙◌, true, ◌&&◌, Option, none, some, String, List, [], ◌∷◌, ◌++◌,
  arith, ◌==◌, if◌then◌else◌, lookup, string_eq, Bool-cases, inl, inr,
}
use shell_watch.Terminal.{
  Status, opening, open_now, closing, closed, error, Status-discrete, CloseReason,
}
use shell_watch.Terminal.Manager.{
  Managed, Manager, Event, status_changed, output_grew, removed, is_status,
}
use shell_watch.Terminal.Manager.Steps.{
  Section, registers, adopts, opens, fails, finishes, begins_closing, removes, pumps, touches,
  abandons, removes_account, destroys, perform, run, NeverRegisters, IsNamed, edge, chain,
  status_of,
}
use shell_watch.Terminal.Manager.Registers.{perform-Follows, perform-IsNamed}

NeverRegisters-split :
    (id : String) (c : Section) (cs : List Section)
    → NeverRegisters id (c ∷ cs)
    → NeverRegisters id (c ∷ []) × NeverRegisters id cs
NeverRegisters-split id (registers ep account t j now) cs n = ((n.0, tt), n.1)
NeverRegisters-split id (adopts j ok) cs n = (tt, n)
NeverRegisters-split id (opens j) cs n = (tt, n)
NeverRegisters-split id (fails j r) cs n = (tt, n)
NeverRegisters-split id (finishes j r) cs n = (tt, n)
NeverRegisters-split id (begins_closing j r) cs n = (tt, n)
NeverRegisters-split id (removes j) cs n = (tt, n)
NeverRegisters-split id (pumps j b now) cs n = (tt, n)
NeverRegisters-split id (touches j now) cs n = (tt, n)
NeverRegisters-split id (abandons j) cs n = (tt, n)
NeverRegisters-split id (removes_account a) cs n = (tt, n)
NeverRegisters-split id destroys cs n = (tt, n)

chain-append :
    (id : String) (s t : Status) (es fs : List Event)
    → chain id s es ≡ some t
    → chain id s (es ++ fs) ≡ chain id t fs
unfolding chain
chain-append id s t [] fs h = ap (λ u. chain id u fs) (ground arith)
chain-append id s t (output_grew j n ∷ es) fs h = chain-append id s t es fs h
chain-append id s t (removed j ∷ es) fs h = chain-append id s t es fs h
chain-append id s t (status_changed ev ∷ es) fs h =
    ground (arith, chain-append id (if ev.session_id == id then ev.status else s) t es fs)

status_of-some :
    (o : Option Managed) (s : Status)
    → status_of o ≡ some s
    → (g : Managed) × (o ≡ some g) × (g.session.status ≡ s)
status_of-some none s h = cc
status_of-some (some g) s h = (g, refl, ground arith)

run-Follows :
    (id : String) (m : Manager) (cs : List Section) (g : Managed)
    → IsNamed m
    → NeverRegisters id cs
    → lookup id m.objects ≡ some g
    → (g' : Managed) × (lookup id (run m cs).0.objects ≡ some g')
      × (chain id g.session.status (run m cs).1 ≡ some g'.session.status)
      × ((r : CloseReason) → g.session.close_reason ≡ some r → g'.session.close_reason ≡ some r)
unfolding run
run-Follows id m [] g n fresh e = (g, e, unfold chain in refl, λ r h. h)
run-Follows id m (c ∷ cs) g n fresh e =
    let (now_fresh, later_fresh) = NeverRegisters-split id c cs fresh in
    let f = perform-Follows m id c n now_fresh in
    let (h, found, reason) = f.kept g e in
    let (g', found', led', reason') =
      run-Follows id (perform m c).0 cs h (perform-IsNamed m c n) later_fresh found in
    let led : chain id g.session.status (perform m c).1 ≡ some h.session.status =
      f.led g.session.status (rw e refl) ∙ ap status_of found in
    (
      g',
      found',
      chain-append id g.session.status h.session.status (perform m c).1 (run (perform m c).0 cs).1
            led
          ∙ led',
      λ r k. reason' r (reason r k),
    )

-- How many of the events give the session `id` the status `st`.
abbrev pub entries : String → Status → List Event → ℕ
entries id st [] = 0
entries id st (output_grew _ _ ∷ es) = entries id st es
entries id st (removed _ ∷ es) = entries id st es
entries id st (status_changed ev ∷ es) =
    (if ev.session_id == id && is_status ev.status st then 1 else 0) + entries id st es

edge_limits :
    (s u : Status)
    → edge s u ≡ true
    → ((if is_status u closed then 1 else 0) + (if is_status u closed then 0 else 1)
        ≤ (if is_status s closed then 0 else 1))
      × ((if is_status u open_now then 1 else 0) + (if is_status u opening then 1 else 0)
          ≤ (if is_status s opening then 1 else 0))
      × (s ≢ closed)
unfolding Status-discrete
edge_limits opening u h = ground arith
edge_limits open_now u h = ground arith
edge_limits closing u h = ground arith
edge_limits closed u h = cc
edge_limits error u h = ground arith

-- Such a chain never leaves closed, closes at most once, and opens only from opening, once.
chain_limits :
    (id : String) (s t : Status) (es : List Event)
    → chain id s es ≡ some t
    → (entries id closed es ≤ (if is_status s closed then 0 else 1))
      × (entries id open_now es ≤ (if is_status s opening then 1 else 0))
      × (s ≡ closed → t ≡ closed)
unfolding chain Status-discrete
chain_limits id s t [] h = (ground arith, ground arith, λ e. ground arith)
chain_limits id s t (output_grew j n ∷ es) h = chain_limits id s t es h
chain_limits id s t (removed j ∷ es) h = chain_limits id s t es h
chain_limits id s t (status_changed ev ∷ es) h = elim (Bool-cases (ev.session_id == id)) [
  | inr other ↦
      let ih = chain_limits id s t es (rw other at h) in
      rw other (omega (arith, ih.0), omega (arith, ih.1), ih.2)
  | inl mine ↦ elim (Bool-cases (is_status ev.previous s && edge s ev.status)) [
    | inr bad ↦ absurd (ground (arith, mine, bad))
    | inl ok ↦
        let ih = chain_limits id ev.status t es (ground (arith, mine, ok)) in
        let (c, o, n) = edge_limits s ev.status (ground arith) in
        rw mine (omega (arith, c, ih.0), omega (arith, o, ih.1), λ e. absurd (n e))
  ]
]

-- In a manager whose objects stand under their session ids, under every interleaving of sections that
-- does not register its id again, a session's status events form one chain of allowed transitions from its status before to its status after, with
-- each event's previous status the one before it; it is announced closed at most once, and not at
-- all if it was closed, open at most once, and only if it was opening; closed is for ever; and a
-- close reason, once given, stays.
pub run_lifecycle :
    (id : String) (m : Manager) (cs : List Section) (g : Managed)
    → IsNamed m
    → NeverRegisters id cs
    → lookup id m.objects ≡ some g
    → (g' : Managed) × (lookup id (run m cs).0.objects ≡ some g')
      × (chain id g.session.status (run m cs).1 ≡ some g'.session.status)
      × (entries id closed (run m cs).1 ≤ (if is_status g.session.status closed then 0 else 1))
      × (entries id open_now (run m cs).1 ≤ (if is_status g.session.status opening then 1 else 0))
      × (g.session.status ≡ closed → g'.session.status ≡ closed)
      × ((r : CloseReason) → g.session.close_reason ≡ some r → g'.session.close_reason ≡ some r)
run_lifecycle id m cs g n fresh e =
    let (g', found, led, reason) = run-Follows id m cs g n fresh e in
    let (c, o, stays) = chain_limits id g.session.status g'.session.status (run m cs).1 led in
    (g', found, led, c, o, stays, reason)
