-- ===== src/Relay/Dial.antt =====
-- agent-client/internal/proxy/proxy.go, `dialWithRetry`, `nextBackoff` and `isTransientDialErr`.
-- Times are milliseconds. The dial is an argument: the result and the duration of each attempt;
-- `late` is how much longer than asked `time.Sleep` sleeps after it.
pub mod Ends
use shell_watch.Base.{
  ℕ, zero, suc, ◌+◌, ◌*◌, ◌≤◌, ◌<◌, ◌≡◌, Bool, true, false, ◌||◌, Option, none, some, ltb, leb,
  ◌==◌, if◌then◌else◌, nat_eq, arith, Bool-cases, inl, inr,
}

abbrev pub dial_initial_backoff : ℕ
dial_initial_backoff = 500

abbrev pub dial_max_backoff : ℕ
dial_max_backoff = 30000

abbrev pub dial_budget : ℕ
dial_budget = 60000

-- What `errors.As` and `errors.Is` find in the error of a dial, and the status of the response that
-- came with it.
pub record DialError : Type 0 where
  pub response : Option ℕ
  pub cert_verification : Bool
  pub unknown_authority : Bool
  pub hostname : Bool
  pub cert_invalid : Bool
  pub net_error : Bool
  pub eof : Bool

unfoldable pub is_transient_dial_err : DialError → Bool
is_transient_dial_err err = elim err.response [
  | some status ↦ leb 500 status || status == 408 || status == 429
  | none ↦
      if err.cert_verification || err.unknown_authority || err.hostname || err.cert_invalid
      then false
      else err.net_error || err.eof
]

unfoldable pub next_backoff : ℕ → ℕ
next_backoff cur = if ltb dial_max_backoff (cur * 2) then dial_max_backoff else cur * 2

-- One attempt; `none` is success.
pub record Attempt : Type 0 where
  pub error : Option DialError
  pub takes : ℕ
  pub late : ℕ

pub data DialResult : Type 0 where
  connected : DialResult
  failed : DialError → DialResult
  exhausted : DialError → DialResult

-- How the call ended, after how many attempts, and when the last of them began.
pub record Dialed : Type 0 where
  pub result : DialResult
  pub attempts : ℕ
  pub last_start : ℕ

abbrev pub dialed : DialResult → ℕ → ℕ → Dialed
dialed r n t = record { result = r; attempts = n; last_start = t }

-- The loop: `attempt` before this round, the wait that comes next, the time and the deadline.
unfoldable pub dial_loop : (ℕ → Attempt) → ℕ → ℕ → ℕ → ℕ → ℕ → Option Dialed
unfolding next_backoff is_transient_dial_err
dial_loop env zero attempt backoff now deadline = none
dial_loop env (suc f) attempt backoff now deadline =
    let a = env (attempt + 1) in
    elim a.error [
      | none ↦ some (dialed connected (attempt + 1) now)
      | some err ↦ elim (is_transient_dial_err err) [
        | false ↦ some (dialed (failed err) (attempt + 1) now)
        | true ↦ elim (ltb deadline (now + a.takes + backoff)) [
          | true ↦ some (dialed (exhausted err) (attempt + 1) now)
          | false ↦
              dial_loop env f (attempt + 1) (next_backoff backoff)
                (now + a.takes + backoff + a.late) deadline
        ]
      ]
    ]

-- The fuel is the number of dials that fit in the budget.
unfoldable pub dial_with_retry : (ℕ → Attempt) → ℕ → Option Dialed
unfolding dial_loop
dial_with_retry env now = dial_loop env 7 0 dial_initial_backoff now (now + dial_budget)
