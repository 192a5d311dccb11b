-- ===== src/Ephemeral/Ideal.antt =====
-- Without a capacity the store's clean-up cannot be seen: the results of every history are those of
-- an ideal map that keeps each entry until it is replaced or removed by name.
use shell_watch.Base.{
  ℕ, ◌+◌, ◌≤◌, ◌≡◌, refl, ◌∙◌, Option, none, some, List, [], ◌∷◌, arith, Eq, ◌==◌, if◌then◌else◌,
  lookup-nil, nat_eq,
}
use shell_watch.Ephemeral.{
  Entry, Store, live_value, new, put_ttl, get, consume, delete, delete_locked, sweep,
  evict_oldest_locked,
}
use shell_watch.Ephemeral.Invariant.{IsValid}
use shell_watch.Ephemeral.Live.{
  live, put_ttl-found, get-live, consume-live, delete_locked-found, sweep-live,
}
use shell_watch.Ephemeral.Runs.{
  Call, puts, gets, consumes, deletes, sweeps, step, run, step-IsValid, new-IsValid,
}

abbrev pub Ideal {ℓ κ} : Type ℓ → Type κ → Type (ℓ ⊔ κ)
Ideal K V = K → Option (Entry V)

module _ {ℓ κ} {K : Type ℓ} {V : Type κ} ⦃e : Eq K⦄ where
  unfoldable pub ideal_step : ℕ → Ideal K V → ℕ → Call K V → Ideal K V × Option V
  ideal_step default_ttl f now (puts k v ttl) = (
    λ j.
        if k == j
        then some (record { value = v; expires_at = now + (if ttl == 0 then default_ttl else ttl) })
        else f j,
    none,
  )
  ideal_step default_ttl f now (gets k) = (f, live_value now (f k))
  ideal_step default_ttl f now (consumes k) =
      (λ j. if k == j then none else f j, live_value now (f k))
  ideal_step default_ttl f now (deletes k) = (λ j. if k == j then none else f j, none)
  ideal_step default_ttl f now sweeps = (f, none)

  unfoldable pub ideal_run : ℕ → Ideal K V → List (ℕ × Call K V) → List (Option V)
  ideal_run default_ttl f [] = []
  ideal_run default_ttl f ((now, c) ∷ cs) =
      (ideal_step default_ttl f now c).1
      ∷ ideal_run default_ttl (ideal_step default_ttl f now c).0 cs

  -- The clock does not run backwards.
  abbrev pub IsAscending : ℕ → List (ℕ × Call K V) → Type 0
  IsAscending t [] = Unit
  IsAscending t ((now, c) ∷ cs) = (t ≤ now) × IsAscending now cs

  record Agrees (t : ℕ) (s : Store K V) (f : Ideal K V) : Type (ℓ ⊔ κ) where
    valid : IsValid s
    unbounded : s.cap ≡ 0
    alike : (j : K) (u : ℕ) → t ≤ u → live s u j ≡ live_value u (f j)

  put_ttl_fields :
      (s : Store K V) (k : K) (v : V) (ttl now : ℕ)
      → ((put_ttl s k v ttl now).cap ≡ s.cap) × ((put_ttl s k v ttl now).ttl ≡ s.ttl)
  unfolding put_ttl evict_oldest_locked
  put_ttl_fields s k v ttl now = ground arith

  get_fields :
      (s : Store K V) (k : K) (now : ℕ)
      → ((get s k now).0.cap ≡ s.cap) × ((get s k now).0.ttl ≡ s.ttl)
  unfolding get
  get_fields s k now = ground arith

  step_fields :
      (s : Store K V) (now : ℕ) (c : Call K V)
      → ((step s now c).0.cap ≡ s.cap) × ((step s now c).0.ttl ≡ s.ttl)
  unfolding step consume delete delete_locked sweep
  step_fields s now (puts k v ttl) = put_ttl_fields s k v ttl now
  step_fields s now (gets k) = get_fields s k now
  step_fields s now (consumes k) = ground arith
  step_fields s now (deletes k) = ground arith
  step_fields s now sweeps = (refl, refl)

  step_alike :
      (t : ℕ) (s : Store K V) (f : Ideal K V) (now : ℕ) (c : Call K V)
      → t ≤ now
      → Agrees t s f
      → ((step s now c).1 ≡ (ideal_step s.ttl f now c).1)
        × ((j : K) (u : ℕ)
            → now ≤ u
            → live (step s now c).0 u j ≡ live_value u ((ideal_step s.ttl f now c).0 j))
  unfolding step ideal_step delete
  step_alike t s f now (puts k v ttl) le a = (
    refl,
    λ j u h. ground (arith, put_ttl-found s k v ttl now j a.valid, a.alike j u, a.unbounded),
  )
  step_alike t s f now (gets k) le a = (
    (get-live s k now).0 ∙ a.alike k now le,
    λ j u h. (get-live s k now).1 j u h ∙ a.alike j u (omega arith),
  )
  step_alike t s f now (consumes k) le a = (
    (consume-live s k now).0 ∙ a.alike k now le,
    λ j u h. ground (arith, (consume-live s k now).1 j u, a.alike j u),
  )
  step_alike t s f now (deletes k) le a =
      (refl, λ j u h. ground (arith, delete_locked-found s k j, a.alike j u))
  step_alike t s f now sweeps le a =
      (refl, λ j u h. (sweep-live s now a.valid j).1 u h ∙ a.alike j u (omega arith))

  run-Agrees :
      (t : ℕ) (s : Store K V) (f : Ideal K V) (cs : List (ℕ × Call K V))
      → Agrees t s f
      → IsAscending t cs
      → (run s cs).1 ≡ ideal_run s.ttl f cs
  unfolding run ideal_run
  run-Agrees t s f [] a up = refl
  run-Agrees t s f ((now, c) ∷ cs) a up =
      let (r, alike) = step_alike t s f now c up.0 a in
      let (cap, ttl) = step_fields s now c in
      let next : Agrees now (step s now c).0 (ideal_step s.ttl f now c).0 = record {
        valid = step-IsValid s now c a.valid;
        unbounded = cap ∙ a.unbounded;
        alike = alike;
      } in
      let rest = run-Agrees now (step s now c).0 (ideal_step s.ttl f now c).0 cs next up.1 in
      rw (r, rest, ttl) refl

  -- While the clock does not run backwards, every history of calls on a new store without a
  -- capacity returns, call by call, what the ideal map returns.
  pub run-ideal_run :
      (ttl : ℕ) (cs : List (ℕ × Call K V))
      → IsAscending 0 cs
      → (run (new ttl 0) cs).1 ≡ ideal_run ttl (λ _. none) cs
  unfolding new
  run-ideal_run ttl cs up =
      run-Agrees 0 (new ttl 0) (λ _. none) cs
        (record {
          valid = new-IsValid ttl 0;
          unbounded = refl;
          alike = λ j u h. rw (lookup-nil j) refl;
        })
        up
