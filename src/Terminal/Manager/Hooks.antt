-- ===== src/Terminal/Manager/Hooks.antt =====
-- The registry under every interleaving: a session leaves it once, and none enters it after a shutdown.
use shell_watch.Base.{
  ℕ, ◌+◌, ◌≡◌, refl, true, false, ◌&&◌, Option, none, String, List, [], ◌∷◌, ◌++◌, arith, ◌==◌,
  if◌then◌else◌, Dict, lookup, contains, IsDistinct, contains-remove_first,
  contains-remove_first_le, remove_first-IsDistinct, string_eq, Option-cases, Bool-cases, inl, inr,
}
use shell_watch.Terminal.{Status, open_now, closed, error, CloseReason}
use shell_watch.Terminal.Manager.{
  Managed, Manager, Event, status_changed, output_grew, removed, register, adopt, set_status,
  begin_closing, remove_entry, pump_output, touch_activity, abandon, mark_destroyed, remove_dead,
  remove_for_account, is_dead,
}
use shell_watch.Terminal.Manager.Steps.{
  Section, registers, adopts, opens, fails, finishes, begins_closing, removes, pumps, touches,
  abandons, removes_account, destroys, perform, run, NeverRegisters,
}

-- How often the removal of `id` is announced.
abbrev pub removals : String → List Event → ℕ
removals id [] = 0
removals id (removed j ∷ es) = (if j == id then 1 else 0) + removals id es
removals id (status_changed _ ∷ es) = removals id es
removals id (output_grew _ _ ∷ es) = removals id es

abbrev pub held : List String → String → ℕ
held ids id = if contains ids id then 1 else 0

abbrev Leaves : String → Manager → Manager → List Event → Type 0
Leaves id m m' es =
    IsDistinct m'.terminals × (removals id es + held m'.terminals id ≡ held m.terminals id)

set_status-Leaves :
    (id : String) (m : Manager) (j : String) (st : Status) (reason : Option CloseReason)
    → IsDistinct m.terminals
    → Leaves id m (set_status m j st reason).0 (set_status m j st reason).1
unfolding set_status
set_status-Leaves id m j st reason d = ground arith

begin_closing-Leaves :
    (id : String) (m : Manager) (j : String) (reason : Option CloseReason)
    → IsDistinct m.terminals
    → Leaves id m (begin_closing m j reason).0 (begin_closing m j reason).2
unfolding begin_closing
begin_closing-Leaves id m j reason d = ground arith

remove_entry-Leaves :
    (id : String) (m : Manager) (j : String)
    → IsDistinct m.terminals
    → Leaves id m (remove_entry m j).0 (remove_entry m j).1
unfolding remove_entry
remove_entry-Leaves id m j d =
    ground
      (arith, contains-remove_first m.terminals j id d, remove_first-IsDistinct m.terminals j d)

pump_output-Leaves :
    (id : String) (m : Manager) (j : String) (bytes : List ℕ) (now : ℕ)
    → IsDistinct m.terminals
    → Leaves id m (pump_output m j bytes now).0 (pump_output m j bytes now).1
unfolding pump_output
pump_output-Leaves id m j bytes now d = ground arith

remove_dead-contains :
    (account id : String) (ids : List String) (objects : Dict String Managed)
    → contains ids id ≡ false
    → contains (remove_dead account ids objects).0 id ≡ false
unfolding remove_dead
remove_dead-contains account id [] objects h = refl
remove_dead-contains account id (j ∷ ids) objects h =
    let rest = remove_dead-contains account id ids objects in
    elim (Option-cases (lookup j objects)) [
      | inl e ↦ rw (e, remove_dead) (ground (arith, rest))
      | inr (x, e) ↦ elim (Bool-cases (x.session.account_id == account && is_dead x.session)) [
        | inl goes ↦ rw (e, remove_dead) (rw goes (ground (arith, rest)))
        | inr stays ↦ rw (e, remove_dead) (rw stays (ground (arith, rest)))
      ]
    ]

remove_dead-Leaves :
    (account id : String) (ids : List String) (objects : Dict String Managed)
    → IsDistinct ids
    → let (kept, _, es) = remove_dead account ids objects in
      IsDistinct kept × (removals id es + held kept id ≡ held ids id)
unfolding remove_dead
remove_dead-Leaves account id [] objects d = (tt, refl)
remove_dead-Leaves account id (j ∷ ids) objects d =
    let (dist, eq) = remove_dead-Leaves account id ids objects d.1 in
    let gone = remove_dead-contains account id ids objects in
    let fresh = remove_dead-contains account j ids objects d.0 in
    elim (Option-cases (lookup j objects)) [
      | inl e ↦ rw (e, remove_dead) ((fresh, dist), ground (arith, eq, d, gone))
      | inr (x, e) ↦ elim (Bool-cases (x.session.account_id == account && is_dead x.session)) [
        | inl goes ↦ rw (e, remove_dead) (rw goes (dist, ground (arith, eq, d, gone)))
        | inr stays ↦ rw (e, remove_dead) (rw stays ((fresh, dist), ground (arith, eq, d, gone)))
      ]
    ]

perform-Leaves :
    (id : String) (m : Manager) (c : Section)
    → IsDistinct m.terminals
    → NeverRegisters id (c ∷ [])
    → Leaves id m (perform m c).0 (perform m c).1
unfolding perform register adopt touch_activity abandon mark_destroyed remove_for_account
perform-Leaves id m (registers ep account t j now) d n = ground arith
perform-Leaves id m (adopts j ok) d n = ground arith
perform-Leaves id m (opens j) d n = set_status-Leaves id m j open_now none d
perform-Leaves id m (fails j reason) d n = set_status-Leaves id m j error reason d
perform-Leaves id m (finishes j reason) d n = set_status-Leaves id m j closed reason d
perform-Leaves id m (begins_closing j reason) d n = begin_closing-Leaves id m j reason d
perform-Leaves id m (removes j) d n = remove_entry-Leaves id m j d
perform-Leaves id m (pumps j bytes now) d n = pump_output-Leaves id m j bytes now d
perform-Leaves id m (touches j now) d n = ground arith
perform-Leaves id m (abandons j) d n = ground arith
perform-Leaves id m (removes_account account) d n =
    remove_dead-Leaves account id m.terminals m.objects d
perform-Leaves id m destroys d n = (d, omega arith)

NeverRegisters-split :
    (id : String) (c : Section) (cs : List Section)
    → NeverRegisters id (c ∷ cs)
    → NeverRegisters id (c ∷ []) × NeverRegisters id cs
NeverRegisters-split id (registers ep account t j now) cs n = ((n.0, tt), n.1)
NeverRegisters-split id (adopts j ok) cs n = (tt, n)
NeverRegisters-split id (opens j) cs n = (tt, n)
NeverRegisters-split id (fails j r) cs n = (tt, n)
NeverRegisters-split id (finishes j r) cs n = (tt, n)
NeverRegisters-split id (begins_closing j r) cs n = (tt, n)
NeverRegisters-split id (removes j) cs n = (tt, n)
NeverRegisters-split id (pumps j b now) cs n = (tt, n)
NeverRegisters-split id (touches j now) cs n = (tt, n)
NeverRegisters-split id (abandons j) cs n = (tt, n)
NeverRegisters-split id (removes_account a) cs n = (tt, n)
NeverRegisters-split id destroys cs n = (tt, n)

removals-append :
    (id : String) (es fs : List Event) → removals id (es ++ fs) ≡ removals id es + removals id fs
removals-append id [] fs = omega arith
removals-append id (removed j ∷ es) fs = omega (arith, removals-append id es fs)
removals-append id (status_changed ev ∷ es) fs = removals-append id es fs
removals-append id (output_grew j n ∷ es) fs = removals-append id es fs

-- In a registry that names each session once, under every interleaving of sections that does not
-- register its id again, a session that is in the registry is announced as removed exactly once if it is gone afterwards, and not at all if it
-- is still there; one that is not in the registry is never announced.
pub run_removes_once :
    (id : String) (m : Manager) (cs : List Section)
    → IsDistinct m.terminals
    → NeverRegisters id cs
    → removals id (run m cs).1 + held (run m cs).0.terminals id ≡ held m.terminals id
unfolding run
run_removes_once id m [] d n = omega arith
run_removes_once id m (c ∷ cs) d n =
    let (now_fresh, later_fresh) = NeverRegisters-split id c cs n in
    let (d', eq) = perform-Leaves id m c d now_fresh in
    omega (
      arith,
      eq,
      run_removes_once id (perform m c).0 cs d' later_fresh,
      removals-append id (perform m c).1 (run (perform m c).0 cs).1,
    )

-- A destroyed manager stays destroyed, and what it does not hold it does not come to hold.
abbrev Sealed : String → Manager → Manager → Type 0
Sealed id m m' =
    (m'.destroyed ≡ true) × (contains m.terminals id ≡ false → contains m'.terminals id ≡ false)

remove_entry-Sealed :
    (id : String) (m : Manager) (j : String) → m.destroyed ≡ true → Sealed id m (remove_entry m j).0
unfolding remove_entry
remove_entry-Sealed id m j h = ground (arith, contains-remove_first_le m.terminals j id)

perform-Sealed :
    (id : String) (m : Manager) (c : Section) → m.destroyed ≡ true → Sealed id m (perform m c).0
unfolding perform register adopt touch_activity abandon mark_destroyed remove_for_account
perform-Sealed id m (registers ep account t j now) h = ground arith
perform-Sealed id m (adopts j ok) h = ground arith
perform-Sealed id m (opens j) h = unfold set_status in ground arith
perform-Sealed id m (fails j reason) h = unfold set_status in ground arith
perform-Sealed id m (finishes j reason) h = unfold set_status in ground arith
perform-Sealed id m (begins_closing j reason) h = unfold begin_closing in ground arith
perform-Sealed id m (removes j) h = remove_entry-Sealed id m j h
perform-Sealed id m (pumps j bytes now) h = unfold pump_output in ground arith
perform-Sealed id m (touches j now) h = ground arith
perform-Sealed id m (abandons j) h = ground arith
perform-Sealed id m (removes_account account) h =
    (h, remove_dead-contains account id m.terminals m.objects)
perform-Sealed id m destroys h = (refl, λ e. e)

run-Sealed :
    (id : String) (m : Manager) (cs : List Section) → m.destroyed ≡ true → Sealed id m (run m cs).0
unfolding run
run-Sealed id m [] h = (h, λ a. a)
run-Sealed id m (c ∷ cs) h =
    let (h', a) = perform-Sealed id m c h in
    let (h'', a') = run-Sealed id (perform m c).0 cs h' in (h'', λ e. a' (a e))

-- After a shutdown no interleaving brings a session into the registry that was not in it.
pub run_after_destroy :
    (id : String) (m : Manager) (cs : List Section)
    → contains m.terminals id ≡ false
    → contains (run (mark_destroyed m).0 cs).0.terminals id ≡ false
unfolding mark_destroyed
run_after_destroy id m cs absent = (run-Sealed id (record m { destroyed = true }) cs refl).1 absent
