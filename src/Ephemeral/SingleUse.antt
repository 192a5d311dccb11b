-- ===== src/Ephemeral/SingleUse.antt =====
-- Single use: a value leaves the store by `Consume` at most once.
use shell_watch.Base.{
  ℕ, ◌+◌, ◌≤◌, ◌≡◌, refl, false, none, List, [], ◌∷◌, arith, Option-cases, Bool-cases, inl, inr, Eq,
  ◌==◌, if◌then◌else◌, lookup, is_some,
}
use shell_watch.Ephemeral.{Store, is_live, get, consume, delete}
use shell_watch.Ephemeral.Invariant.{IsValid, consume-IsValid}
use shell_watch.Ephemeral.Live.{put_ttl-found, consume-live, delete_locked-found, sweep-live}
use shell_watch.Ephemeral.Runs.{Call, puts, gets, consumes, deletes, sweeps, step, step-IsValid}

module _ {ℓ κ} {K : Type ℓ} {V : Type κ} ⦃e : Eq K⦄ where
  -- How often `k` was consumed with success.
  unfoldable pub consumed : K → Store K V → List (ℕ × Call K V) → ℕ
  consumed k s [] = 0
  consumed k s ((now, consumes j) ∷ cs) =
      (if j == k then (if is_some (consume s j now).1 then 1 else 0) else 0)
      + consumed k (consume s j now).0 cs
  consumed k s ((now, c) ∷ cs) = consumed k (step s now c).0 cs

  -- No call of the history writes `k`.
  abbrev pub NeverPut : K → List (ℕ × Call K V) → Type 0
  NeverPut k [] = Unit
  NeverPut k ((now, puts j v ttl) ∷ cs) = ((j == k) ≡ false) × NeverPut k cs
  NeverPut k ((now, c) ∷ cs) = NeverPut k cs

  get_absent :
      (s : Store K V) (j k : K) (now : ℕ) → lookup k s.m ≡ none → lookup k (get s j now).0.m ≡ none
  unfolding get
  get_absent s j k now h = elim (Option-cases (lookup j s.m)) [
    | inl g ↦ rw (g, get) h
    | inr (x, g) ↦ elim (Bool-cases (is_live now x)) [
      | inl l ↦ rw (g, get) (rw l h)
      | inr l ↦ rw (g, get) (rw l (ground (arith, delete_locked-found s j k)))
    ]
  ]

  step_absent :
      (k : K) (s : Store K V) (now : ℕ) (c : Call K V)
      → IsValid s
      → NeverPut k ((now, c) ∷ [])
      → lookup k s.m ≡ none
      → lookup k (step s now c).0.m ≡ none
  unfolding step delete consume
  step_absent k s now (puts j v ttl) w p h = ground (arith, put_ttl-found s j v ttl now k w)
  step_absent k s now (gets j) w p h = get_absent s j k now h
  step_absent k s now (consumes j) w p h = ground (arith, delete_locked-found s j k)
  step_absent k s now (deletes j) w p h = ground (arith, delete_locked-found s j k)
  step_absent k s now sweeps w p h = ground (arith, (sweep-live s now w k).0)

  consumed_absent :
      (k : K) (s : Store K V) (cs : List (ℕ × Call K V))
      → IsValid s
      → NeverPut k cs
      → lookup k s.m ≡ none
      → consumed k s cs ≡ 0
  unfolding consumed
  consumed_absent k s [] w p h = refl
  consumed_absent k s ((now, consumes j) ∷ cs) w p h = ground (
    arith,
    (consume-live s j now).0,
    consumed_absent k (consume s j now).0 cs (consume-IsValid s j now w) p
        (unfold step in step_absent k s now (consumes j) w tt h),
  )
  consumed_absent k s ((now, puts j v ttl) ∷ cs) w p h =
      consumed_absent k _ cs (step-IsValid s now (puts j v ttl) w) p.1
        (step_absent k s now (puts j v ttl) w (p.0, tt) h)
  consumed_absent k s ((now, gets j) ∷ cs) w p h =
      consumed_absent k _ cs (step-IsValid s now (gets j) w) p (step_absent k s now (gets j) w tt h)
  consumed_absent k s ((now, deletes j) ∷ cs) w p h =
      consumed_absent k _ cs (step-IsValid s now (deletes j) w) p
        (step_absent k s now (deletes j) w tt h)
  consumed_absent k s ((now, sweeps) ∷ cs) w p h =
      consumed_absent k _ cs (step-IsValid s now sweeps w) p (step_absent k s now sweeps w tt h)

  -- In a valid store, a history that never writes `k` consumes `k` with success at most once.
  pub consumed_once :
      (k : K) (s : Store K V) (cs : List (ℕ × Call K V))
      → IsValid s
      → NeverPut k cs
      → consumed k s cs ≤ 1
  unfolding consumed
  consumed_once k s [] w p = omega arith
  consumed_once k s ((now, consumes j) ∷ cs) w p = elim (Bool-cases (j == k)) [
    | inl same ↦ ground (
      arith,
      consumed_absent k (consume s j now).0 cs (consume-IsValid s j now w) p
          (unfold consume in ground (arith, delete_locked-found s j k)),
    )
    | inr other ↦
        rw other
          (omega (arith, consumed_once k (consume s j now).0 cs (consume-IsValid s j now w) p))
  ]
  consumed_once k s ((now, puts j v ttl) ∷ cs) w p =
      consumed_once k _ cs (step-IsValid s now (puts j v ttl) w) p.1
  consumed_once k s ((now, gets j) ∷ cs) w p =
      consumed_once k _ cs (step-IsValid s now (gets j) w) p
  consumed_once k s ((now, deletes j) ∷ cs) w p =
      consumed_once k _ cs (step-IsValid s now (deletes j) w) p
  consumed_once k s ((now, sweeps) ∷ cs) w p = consumed_once k _ cs (step-IsValid s now sweeps w) p
