-- ===== src/Ephemeral/Examples.antt =====
-- Tests of the TTL store, and instances of its theorems.
use shell_watch.Base.{
  ℕ, ◌≡◌, refl, none, some, String, List, [], ◌∷◌, arith, lookup, insert, erase, string_eq, nat_eq,
}
use shell_watch.Ephemeral.{new, put_ttl, sweep, get, consume, delete}
use shell_watch.Ephemeral.Invariant.{IsValid}
use shell_watch.Ephemeral.Runs.{Call, puts, gets, consumes, sweeps, step, run, run-new-IsValid}
use shell_watch.Ephemeral.Ideal.{ideal_run, run-ideal_run}

abbrev history : List (ℕ × Call String ℕ)
history =
    (1, puts "a" 7 0)
    ∷ (2, puts "b" 8 50)
    ∷ (3, puts "c" 9 0)
    ∷ (4, gets "a")
    ∷ (5, consumes "b")
    ∷ (6, consumes "b")
    ∷ (20, gets "c")
    ∷ (21, sweeps)
    ∷ []

-- With room for two entries the third write forgets the first; the last read comes too late.
history_results :
    (run (new 10 2) history).1 ≡ none ∷ none ∷ none ∷ none ∷ some 8 ∷ none ∷ none ∷ none ∷ []
unfolding run step new put_ttl get consume delete sweep lookup insert erase string_eq nat_eq
history_results = refl

run-new-IsValid_example : IsValid (run (new 10 2) history).0
run-new-IsValid_example = run-new-IsValid 10 2 history

abbrev reads : List (ℕ × Call String ℕ)
reads = (5, consumes "b") ∷ (6, gets "a") ∷ (7, consumes "b") ∷ (8, sweeps) ∷ []

run-ideal_run_example : (run (new 10 0) history).1 ≡ ideal_run 10 (λ _. none) history
run-ideal_run_example = run-ideal_run 10 history (omega arith)
