-- ===== src/Relay/Dial/Ends.antt =====
-- The dial ends: within seven attempts, and with what its last attempt says.
use shell_watch.Base.{
  ℕ, zero, suc, ◌+◌, ◌≤◌, ◌<◌, ◌≡◌, true, false, Option, none, some, ltb, arith, Bool-cases,
  Option-cases, inl, inr,
}
use shell_watch.Relay.Dial.{
  is_transient_dial_err, next_backoff, Attempt, DialResult, connected, failed, exhausted, Dialed,
  dial_loop, dial_with_retry, dial_budget, dial_initial_backoff,
}

-- How long the waits of `f` rounds take at least.
waits : ℕ → ℕ → ℕ
waits zero backoff = 0
waits (suc f) backoff = backoff + waits f (next_backoff backoff)

-- What a result says of the attempt that it comes from.
abbrev pub Explains : Attempt → DialResult → Type 0
Explains a connected = a.error ≡ none
Explains a (failed err) = (a.error ≡ some err) × (is_transient_dial_err err ≡ false)
Explains a (exhausted err) = (a.error ≡ some err) × (is_transient_dial_err err ≡ true)

-- A call that returned, after at most `n` attempts of which the last began by `latest`.
abbrev pub Ends : (ℕ → Attempt) → ℕ → ℕ → Option Dialed → Type 0
Ends env n latest none = ⊥
Ends env n latest (some d) =
    (d.attempts ≤ n) × (d.last_start ≤ latest) × Explains (env d.attempts) d.result

module _ (env : ℕ → Attempt) (n l deadline : ℕ) (prompt : (k : ℕ) → (env k).late ≤ l) where
  -- A round that does not wait again.
  last_round :
      (f attempt backoff now : ℕ)
      → now ≤ deadline + l
      → deadline < now + backoff
      → suc attempt + f ≤ n
      → Ends env n (deadline + l) (dial_loop env (suc f) attempt backoff now deadline)
  unfolding dial_loop
  last_round f attempt backoff now k h b = elim (Option-cases (env (attempt + 1)).error) [
    | inl e ↦ rw (e, dial_loop) (omega arith, k, e)
    | inr (err, e) ↦ elim (Bool-cases (is_transient_dial_err err)) [
      | inr t ↦ rw (e, t, dial_loop) (omega arith, k, (e, t))
      | inl t ↦ elim (Bool-cases (ltb deadline (now + (env (attempt + 1)).takes + backoff))) [
        | inl x ↦ rw (e, t, x, dial_loop) (omega arith, k, (e, t))
        | inr x ↦ absurd (ground arith)
      ]
    ]
  ]

  dial_loop-Ends :
      (f attempt backoff now : ℕ)
      → deadline < now + waits (suc f) backoff
      → now ≤ deadline + l
      → suc attempt + f ≤ n
      → Ends env n (deadline + l) (dial_loop env (suc f) attempt backoff now deadline)
  unfolding dial_loop waits
  dial_loop-Ends zero attempt backoff now h k b =
      last_round zero attempt backoff now k (omega arith) b
  dial_loop-Ends (suc f) attempt backoff now h k b = elim (Option-cases (env (attempt + 1)).error) [
    | inl e ↦ rw (e, dial_loop) (omega arith, k, e)
    | inr (err, e) ↦ elim (Bool-cases (is_transient_dial_err err)) [
      | inr t ↦ rw (e, t, dial_loop) (omega arith, k, (e, t))
      | inl t ↦ elim (Bool-cases (ltb deadline (now + (env (attempt + 1)).takes + backoff))) [
        | inl x ↦ rw (e, t, x, dial_loop) (omega arith, k, (e, t))
        | inr x ↦
            rw (e, t, x, dial_loop)
              (dial_loop-Ends f (attempt + 1) (next_backoff backoff)
                (now + (env (attempt + 1)).takes + backoff + (env (attempt + 1)).late)
                (ground arith) (ground (arith, prompt (attempt + 1))) (omega arith))
      ]
    ]
  ]

-- A call of `dialWithRetry` returns, whatever the dials do: after at most seven attempts, the last
-- of which begins within the budget of 60 s and what a sleep takes longer than asked. What it
-- returns is what that attempt says: a connection if it succeeded, its error at once if the error
-- is not transient, and the error as exhausted retries only if it is.
pub dial_with_retry-Ends :
    (env : ℕ → Attempt) (l now : ℕ)
    → ((n : ℕ) → (env n).late ≤ l)
    → Ends env 7 (now + dial_budget + l) (dial_with_retry env now)
unfolding dial_with_retry waits next_backoff
dial_with_retry-Ends env l now prompt =
    dial_loop-Ends env 7 l (now + dial_budget) prompt 6 0 dial_initial_backoff now (omega arith)
      (omega arith) (omega arith)
