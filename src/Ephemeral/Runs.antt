-- ===== src/Ephemeral/Runs.antt =====
-- Histories of timed calls, and the store without a capacity against a map that never cleans up.
use shell_watch.Base.{ℕ, refl, Option, none, List, [], ◌∷◌, arith, Eq, lookup-nil, nat_eq}
use shell_watch.Ephemeral.{Store, new, put_ttl, get, consume, delete, sweep}
use shell_watch.Ephemeral.Invariant.{
  IsValid, put_ttl-IsValid, get-IsValid, consume-IsValid, delete_locked-IsValid, sweep-IsValid,
}

-- A method call.
pub data Call {ℓ κ} (K : Type ℓ) (V : Type κ) : Type (ℓ ⊔ κ) where
  puts : K → V → ℕ → Call K V
  gets : K → Call K V
  consumes : K → Call K V
  deletes : K → Call K V
  sweeps : Call K V

module _ {ℓ κ} {K : Type ℓ} {V : Type κ} ⦃e : Eq K⦄ where
  unfoldable pub step : Store K V → ℕ → Call K V → Store K V × Option V
  step s now (puts k v ttl) = (put_ttl s k v ttl now, none)
  step s now (gets k) = get s k now
  step s now (consumes k) = consume s k now
  step s now (deletes k) = (delete s k, none)
  step s now sweeps = (sweep s now, none)

  -- The state and the results of a history, each call with the clock's reading.
  unfoldable pub run : Store K V → List (ℕ × Call K V) → Store K V × List (Option V)
  run s [] = (s, [])
  run s ((now, c) ∷ cs) = let (s', r) = step s now c in let (t, rs) = run s' cs in (t, r ∷ rs)

  pub step-IsValid : (s : Store K V) (now : ℕ) (c : Call K V) → IsValid s → IsValid (step s now c).0
  unfolding step delete
  step-IsValid s now (puts k v ttl) w = put_ttl-IsValid s k v ttl now w
  step-IsValid s now (gets k) w = get-IsValid s k now w
  step-IsValid s now (consumes k) w = consume-IsValid s k now w
  step-IsValid s now (deletes k) w = delete_locked-IsValid s k w
  step-IsValid s now sweeps w = sweep-IsValid s now w

  run-IsValid : (s : Store K V) (cs : List (ℕ × Call K V)) → IsValid s → IsValid (run s cs).0
  unfolding run
  run-IsValid s [] w = w
  run-IsValid s ((now, c) ∷ cs) w = run-IsValid (step s now c).0 cs (step-IsValid s now c w)

  pub new-IsValid : (ttl cap : ℕ) → IsValid (new {K = K} {V = V} ttl cap)
  unfolding new
  new-IsValid ttl cap = record {
    tracks = record { same = λ k. rw (lookup-nil k) refl; distinct = tt; nodup = tt; size = refl };
    bounded = λ _. omega arith;
  }

  -- After any history of calls on a new store, the insertion order lists each key of the map
  -- exactly once and nothing else, and a positive capacity bounds the number of entries.
  pub run-new-IsValid : (ttl cap : ℕ) (cs : List (ℕ × Call K V)) → IsValid (run (new ttl cap) cs).0
  run-new-IsValid ttl cap cs = run-IsValid (new ttl cap) cs (new-IsValid ttl cap)
