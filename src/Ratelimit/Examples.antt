-- ===== src/Ratelimit/Examples.antt =====
-- Tests of the limiter, and instances of its theorems.
use shell_watch.Base.{
  ◌-◌, ◌≡◌, refl, true, false, some, List, [], ◌∷◌, arith, min, ◌==◌, lookup, string_eq, nat_eq,
}
use shell_watch.Ratelimit.{Bucket, Limiter, allow}
use shell_watch.Ratelimit.Windows.{asked, allowed, allowed_in_window}
use shell_watch.Ratelimit.Bounds.{IsBounded, Hit, run, run-IsBounded}

abbrev seen : Bucket
seen = record { count = 1; start = 100 }

abbrev two_a_window : Limiter
two_a_window = record { max = 2; window = 60; buckets = ("10.0.0.1", seen) ∷ []; last_prune = 0 }

-- The second request of the window is the last that is allowed.
second_of_two :
    (allow two_a_window "10.0.0.1" 120 "").1 ≡ record { ok = true; remaining = 0; reset = 40 }
unfolding allow lookup string_eq nat_eq
second_of_two = refl

abbrev hits : List Hit
hits = (120, "10.0.0.1", "") ∷ (130, "10.0.0.2", "") ∷ (140, "10.0.0.1", "") ∷ []

one-IsBounded : IsBounded two_a_window
unfolding lookup
one-IsBounded = record { nodup = (refl, tt); bounded = omega arith }

run-IsBounded_example : IsBounded (run two_a_window hits)
run-IsBounded_example = run-IsBounded two_a_window hits one-IsBounded

is_on : (two_a_window.max == 0) ≡ false
unfolding nat_eq
is_on = refl

bucket_found : lookup "10.0.0.1" two_a_window.buckets ≡ some seen
unfolding lookup string_eq
bucket_found = refl

allowed_in_window_example :
    allowed "10.0.0.1" two_a_window hits ≡ min (asked "10.0.0.1" hits) (2 - 1)
allowed_in_window_example =
    allowed_in_window "10.0.0.1" two_a_window hits seen is_on bucket_found (omega arith)
      (omega arith, (omega arith, (omega arith, tt)))
