-- ===== src/Webauthn/StepUp/Gate.antt =====
-- What passes the step-up gate.
use mathlib.Core.Logic.{◌↔◌}
use shell_watch.Base.{
  ℕ, ◌+◌, ◌≤◌, ◌<◌, ◌≡◌, refl, Bool, true, false, ◌&&◌, Option, none, some, String, List, [], ◌∷◌,
  arith, ◌==◌, ==-refl, ==→≡, if◌then◌else◌, string_eq, nat_eq, Bool-cases, inl, inr,
}
use shell_watch.Ephemeral.{put, put_ttl, consume, sweep}
use shell_watch.Ephemeral.Invariant.{IsValid}
use shell_watch.Ephemeral.Live.{consume-put, consume-consume}
use shell_watch.Ephemeral.Runs.{Call, puts, consumes, sweeps, step}
use shell_watch.Ephemeral.SingleUse.{consumed, NeverPut, consumed_once}
use shell_watch.Webauthn.StepUp.{
  StepUpStore, StepUpEntry, mint, consume_token, require_step_up, Outcome, passed_on, answered,
  step_up_ttl,
}

==-≡ : (x y : String) → x ≡ y → (x == y) ≡ true
==-≡ x y e = rw⁻¹ e (==-refl x)

-- A token that is not empty and was just minted passes the gate exactly for its account and its action, before its lifetime has
-- passed; whatever the outcome, the next request that presents it is told that a step-up is required.
pub require_step_up-mint :
    (s : StepUpStore) (token account action account' action' account2 action2 : String)
    (now at_time later : ℕ)
    → (token == "") ≡ false
    → let (t, o) =
        require_step_up (mint s token account action now).0 (some account') token action' at_time in
      ((o ≡ passed_on) ↔ ((account ≡ account') × (action ≡ action') × (at_time < now + s.ttl)))
      × ((require_step_up t (some account2) token action2 later).1
          ≡ answered 401 "Step-up authentication required" "stepup_required")
unfolding require_step_up consume_token mint
require_step_up-mint s token account action account' action' account2 action2 now at_time later ne =
    let e : StepUpEntry = record {
      account_id = account;
      action = action;
      expires_at = now + step_up_ttl;
    } in
    rw
      (
        ne,
        consume-put s token e now at_time,
        consume-consume (put s token e now) token at_time later,
      )
      (
        (
          λ h. ground (arith, ==→≡ account account', ==→≡ action action'),
          λ (a, b, c). ground (arith, ==-≡ account account' a, ==-≡ action action' b),
        ),
        refl,
      )

-- What reaches the token store: a token is minted, a gated request comes in, or the janitor sweeps.
pub data Step : Type 0 where
  mints : String → String → String → Step
  requests : Option String → String → String → Step
  cleans : Step

unfoldable pub perform : StepUpStore → ℕ → Step → StepUpStore × Option Outcome
perform s now (mints token account action) = ((mint s token account action now).0, none)
perform s now (requests account token action) =
    let (t, o) = require_step_up s account token action now in (t, some o)
perform s now cleans = (sweep s now, none)

-- How many of the requests that present `token` pass.
abbrev pub is_passed : Outcome → Bool
is_passed passed_on = true
is_passed (answered _ _ _) = false

unfoldable pub passes : String → StepUpStore → List (ℕ × Step) → ℕ
passes token s [] = 0
passes token s ((now, requests account t action) ∷ cs) =
    (if t == token && is_passed (require_step_up s account t action now).1 then 1 else 0)
    + passes token (require_step_up s account t action now).0 cs
passes token s ((now, c) ∷ cs) = passes token (perform s now c).0 cs

abbrev pub NeverMinted : String → List (ℕ × Step) → Type 0
NeverMinted token [] = Unit
NeverMinted token ((now, mints t account action) ∷ cs) =
    ((t == token) ≡ false) × NeverMinted token cs
NeverMinted token ((now, c) ∷ cs) = NeverMinted token cs

-- The calls of the ephemeral store that a history makes.
unfoldable calls : List (ℕ × Step) → List (ℕ × Call String StepUpEntry)
calls [] = []
calls ((now, mints token account action) ∷ cs) =
    (
      now,
      puts token (record { account_id = account; action = action; expires_at = now + step_up_ttl })
          0,
    )
    ∷ calls cs
calls ((now, requests none token action) ∷ cs) = calls cs
calls ((now, requests (some account) token action) ∷ cs) =
    let rest = calls cs in if token == "" then rest else (now, consumes token) ∷ rest
calls ((now, cleans) ∷ cs) = (now, sweeps) ∷ calls cs

calls-NeverPut :
    (token : String) (cs : List (ℕ × Step)) → NeverMinted token cs → NeverPut token (calls cs)
unfolding calls
calls-NeverPut token [] n = tt
calls-NeverPut token ((now, mints t account action) ∷ cs) n = (n.0, calls-NeverPut token cs n.1)
calls-NeverPut token ((now, requests none t action) ∷ cs) n = calls-NeverPut token cs n
calls-NeverPut token ((now, requests (some account) t action) ∷ cs) n =
    elim (Bool-cases (t == "")) [
      | inl e ↦ rw e (calls-NeverPut token cs n)
      | inr e ↦ rw e (calls-NeverPut token cs n)
    ]
calls-NeverPut token ((now, cleans) ∷ cs) n = calls-NeverPut token cs n

put-put_ttl :
    (s : StepUpStore) (k : String) (v : StepUpEntry) (now : ℕ) → put s k v now ≡ put_ttl s k v 0 now
unfolding put put_ttl nat_eq
put-put_ttl s k v now = elim (Bool-cases (s.ttl == 0)) [ inl z ↦ rw z refl | inr z ↦ rw z refl ]

passes-consumed :
    (token : String) (s : StepUpStore) (cs : List (ℕ × Step))
    → passes token s cs ≤ consumed token s (calls cs)
unfolding passes consumed calls perform require_step_up consume_token mint step
passes-consumed token s [] = omega arith
passes-consumed token s ((now, mints t account action) ∷ cs) =
    rw
      (put-put_ttl s t
        (record { account_id = account; action = action; expires_at = now + step_up_ttl }) now)
      (passes-consumed token _ cs)
passes-consumed token s ((now, requests none t action) ∷ cs) =
    ground (arith, passes-consumed token s cs)
passes-consumed token s ((now, requests (some account) t action) ∷ cs) =
    elim (Bool-cases (t == "")) [
      | inl e ↦ rw e ((ground (arith, passes-consumed token s cs)))
      | inr e ↦ rw e ((ground (arith, passes-consumed token (consume s t now).0 cs)))
    ]
passes-consumed token s ((now, cleans) ∷ cs) = passes-consumed token (sweep s now) cs

-- In a valid token store, whatever requests come in, from whatever accounts and for whatever actions,
-- at most one of those that present a given token passes the gate, unless the token is minted again.
pub token_passes_once :
    (token : String) (s : StepUpStore) (cs : List (ℕ × Step))
    → IsValid s
    → NeverMinted token cs
    → passes token s cs ≤ 1
token_passes_once token s cs w n = omega (
  arith,
  passes-consumed token s cs,
  consumed_once token s (calls cs) w (calls-NeverPut token cs n),
)
