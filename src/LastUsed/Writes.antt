-- ===== src/LastUsed/Writes.antt =====
-- Writing later is as good as writing at once: nothing of an accepted touch is lost, and nothing comes
-- after the close.
use shell_watch.Base.{
  ℕ, ◌≡◌, refl, sym, ap, ◌∙◌, subst, Bool, true, false, ◌&&◌, Option, none, some, String, List, [],
  ◌∷◌, ◌==◌, ==→≡, ==-refl, if◌then◌else◌, Dict, lookup, lookup-insert, NodupKeys, insert-NodupKeys,
  is_some, string_eq, arith, Bool-cases, inl, inr,
}
use shell_watch.LastUsed.{
  Flusher, new_flusher, touch, touch_account, write, begin_flush, begin_close, end_writes, Step,
  touches, flushes, closes, writes, write, step, run,
}

abbrev pub or_else : Option ℕ → Option ℕ → Option ℕ
or_else (some x) o = some x
or_else none o = o

abbrev pub batch_of : Option (Dict String ℕ) → Dict String ℕ
batch_of none = []
batch_of (some b) = b

-- The time stamp of an account, wherever it is.
abbrev pub view : String → Flusher → Option ℕ
view id f =
    or_else (lookup id f.dirty) (or_else (lookup id (batch_of f.in_flight)) (lookup id f.accounts))

-- The database takes the writes of the account.
abbrev pub IsTaken : String → List Step → Type 0
IsTaken id [] = Unit
IsTaken id (writes takes ∷ ss) = (takes id ≡ true) × IsTaken id ss
IsTaken id (_ ∷ ss) = IsTaken id ss

record IsSound (id : String) (f : Flusher) : Type 0 where
  distinct : NodupKeys f.dirty
  batch_distinct : NodupKeys (batch_of f.in_flight)
  known : is_some (lookup id f.accounts) ≡ true
  drained : f.closed ≡ true → f.dirty ≡ []

touch_account-lookup :
    (id : String) (takes : String → Bool) (accounts : Dict String ℕ) (j : String) (ts : ℕ)
    → takes id ≡ true
    → is_some (lookup id accounts) ≡ true
    → lookup id (touch_account takes accounts j ts)
      ≡ (if j == id then some ts else lookup id accounts)
unfolding touch_account
touch_account-lookup id takes accounts j ts t k = elim (Bool-cases (j == id)) [
  | inl q ↦ rw q (
      subst (λ x. lookup id (touch_account takes accounts x ts) ≡ some ts) (sym (==→≡ j id q))
        (rw (t, k) (lookup-insert id id ts accounts ∙ rw (==-refl id) refl)))
  | inr n ↦ elim (Bool-cases (takes j && is_some (lookup j accounts))) [
    | inl g ↦ rw (g, n) (lookup-insert id j ts accounts ∙ rw n refl)
    | inr g ↦ rw (g, n) refl
  ]
]

still :
    (b : Bool) (ts : ℕ) (o : Option ℕ)
    → is_some o ≡ true
    → is_some (if b then some ts else o) ≡ true
still true ts o k = refl
still false ts o k = k

write-lookup :
    (id : String) (takes : String → Bool) (batch accounts : Dict String ℕ)
    → takes id ≡ true
    → is_some (lookup id accounts) ≡ true
    → NodupKeys batch
    → lookup id (write takes batch accounts) ≡ or_else (lookup id batch) (lookup id accounts)
unfolding write lookup
write-lookup id takes [] accounts t k u = refl
write-lookup id takes ((j, ts) ∷ batch) accounts t k u =
    let one = touch_account-lookup id takes accounts j ts t k in
    let rest =
      write-lookup id takes batch (touch_account takes accounts j ts) t
        (ap is_some one ∙ still (j == id) ts (lookup id accounts) k) u.1 in
    elim (Bool-cases (j == id)) [
      | inr n ↦ rw n (rest ∙ ap (or_else (lookup id batch)) (rw n at one))
      | inl q ↦ rw q (
          rest
          ∙ ap (λ x. or_else x (lookup id (touch_account takes accounts j ts)))
              (ap (λ x. lookup x batch) (sym (==→≡ j id q)) ∙ u.0)
          ∙ rw q at one)
    ]

-- What a step makes of the time stamp of an account: a touch of it sets it, unless it comes after the
-- close.
abbrev pub next : String → Flusher → Option ℕ → Step → Option ℕ
next id f o (touches j now) = if f.closed then o else if j == id then some now else o
next id f o _ = o

step-view :
    (id : String) (f : Flusher) (s : Step)
    → IsSound id f
    → IsTaken id (s ∷ [])
    → view id (step f s) ≡ next id f (view id f) s
unfolding step touch begin_flush begin_close end_writes lookup
step-view id f (touches j now) h t = ground (arith, lookup-insert id j now f.dirty)
step-view id f flushes h t = ground arith
step-view id f closes h t = ground arith
step-view id f (writes takes) h t =
    ground
      (arith, write-lookup id takes (batch_of f.in_flight) f.accounts t.0 h.known h.batch_distinct)

step-IsSound :
    (id : String) (f : Flusher) (s : Step)
    → IsSound id f
    → IsTaken id (s ∷ [])
    → IsSound id (step f s)
unfolding step touch begin_flush begin_close end_writes lookup
step-IsSound id f (touches j now) h t = ground (arith, insert-NodupKeys j now f.dirty)
step-IsSound id f flushes h t = ground arith
step-IsSound id f closes h t = ground arith
step-IsSound id f (writes takes) h t =
    ground
      (arith, write-lookup id takes (batch_of f.in_flight) f.accounts t.0 h.known h.batch_distinct)

IsTaken-split :
    (id : String) (s : Step) (ss : List Step)
    → IsTaken id (s ∷ ss)
    → IsTaken id (s ∷ []) × IsTaken id ss
IsTaken-split id (touches j now) ss t = (tt, t)
IsTaken-split id flushes ss t = (tt, t)
IsTaken-split id closes ss t = (tt, t)
IsTaken-split id (writes takes) ss t = ((t.0, tt), t.1)

-- The last touch before the close, if there is one.
abbrev pub accepted : String → Flusher → Option ℕ → List Step → Option ℕ
accepted id f o [] = o
accepted id f o (s ∷ ss) = accepted id (step f s) (next id f o s) ss

run-view :
    (id : String) (f : Flusher) (ss : List Step)
    → IsSound id f
    → IsTaken id ss
    → view id (run f ss) ≡ accepted id f (view id f) ss
unfolding run
run-view id f [] h t = refl
run-view id f (s ∷ ss) h t =
    let p = IsTaken-split id s ss t in
    run-view id (step f s) ss (step-IsSound id f s h p.0) p.1
    ∙ ap (λ o. accepted id (step f s) o ss) (step-view id f s h p.0)

-- With nothing in memory the time stamp is the database's.
view_written :
    (id : String) (f : Flusher)
    → f.dirty ≡ []
    → f.in_flight ≡ none
    → view id f ≡ lookup id f.accounts
unfolding lookup
view_written id f d n = ground arith

run-IsSound :
    (id : String) (f : Flusher) (ss : List Step)
    → IsSound id f
    → IsTaken id ss
    → IsSound id (run f ss)
unfolding run
run-IsSound id f [] h t = h
run-IsSound id f (s ∷ ss) h t =
    let p = IsTaken-split id s ss t in run-IsSound id (step f s) ss (step-IsSound id f s h p.0) p.1

-- After the close and its writes there is nothing left to write.
record IsOver (f : Flusher) : Type 0 where
  shut : f.closed ≡ true
  clean : f.dirty ≡ []
  nothing : batch_of f.in_flight ≡ []

write_nothing :
    (takes : String → Bool) (b accounts : Dict String ℕ)
    → b ≡ []
    → write takes b accounts ≡ accounts
unfolding write
write_nothing takes b accounts e = rw e refl

step-IsOver :
    (f : Flusher) (s : Step) → IsOver f → IsOver (step f s) × ((step f s).accounts ≡ f.accounts)
unfolding step touch begin_flush begin_close end_writes write
step-IsOver f (touches j now) h = ground arith
step-IsOver f flushes h = ground arith
step-IsOver f closes h = ground arith
step-IsOver f (writes takes) h =
    ground (arith, write_nothing takes (batch_of f.in_flight) f.accounts h.nothing)

run-IsOver : (f : Flusher) (ss : List Step) → IsOver f → (run f ss).accounts ≡ f.accounts
unfolding run
run-IsOver f [] h = refl
run-IsOver f (s ∷ ss) h = let p = step-IsOver f s h in run-IsOver (step f s) ss p.0 ∙ p.1

-- Touches, flushes, closes and the writes of their batches come in any order. Once the flusher is
-- closed and the writes are done, an account that the database has, and whose writes it took, has
-- the time of its last touch before the close, or the time that it had if there was none. Nothing that comes
-- later changes the database.
pub run_writes_last :
    (id : String) (accounts : Dict String ℕ) (ss more : List Step)
    → is_some (lookup id accounts) ≡ true
    → IsTaken id ss
    → (run (new_flusher accounts) ss).closed ≡ true
    → (run (new_flusher accounts) ss).in_flight ≡ none
    → (lookup id (run (new_flusher accounts) ss).accounts
        ≡ accepted id (new_flusher accounts) (lookup id accounts) ss)
      × ((run (run (new_flusher accounts) ss) more).accounts
          ≡ (run (new_flusher accounts) ss).accounts)
unfolding lookup
run_writes_last id accounts ss more k t c n =
    let start : IsSound id (new_flusher accounts) = record {
      distinct = tt;
      batch_distinct = tt;
      known = k;
      drained = λ e. refl;
    } in
    let f : Flusher = run (new_flusher accounts) ss in
    let d : f.dirty ≡ [] = (run-IsSound id (new_flusher accounts) ss start t).drained c in
    (
      sym (view_written id f d n) ∙ run-view id (new_flusher accounts) ss start t,
      run-IsOver f more (record { shut = c; clean = d; nothing = ap batch_of n }),
    )
