-- ===== src/Ratelimit/Windows.antt =====
-- What the limiter lets through.
use shell_watch.Base.{
  ℕ, suc, ◌+◌, ◌-◌, ◌≤◌, ◌<◌, ◌≡◌, refl, ap, ◌∙◌, false, ◌&&◌, some, String, List, [], ◌∷◌, arith,
  leb, min, ◌==◌, ==→≡, if◌then◌else◌, lookup, insert, lookup-insert, length, length-insert,
  string_eq, nat_eq, Bool-cases, Option-cases, inl, inr,
}
use shell_watch.Ratelimit.{Bucket, Limiter, max_buckets, is_over, make_room, hit, allow}
use shell_watch.Ratelimit.Bounds.{Hit}

-- How many of the requests come from `key`, and how many of those are allowed.
abbrev pub asked : String → List Hit → ℕ
asked key [] = 0
asked key ((_, k, _) ∷ hs) = (if k == key then 1 else 0) + asked key hs

unfoldable pub allowed : String → Limiter → List Hit → ℕ
allowed key l [] = 0
allowed key l ((now, k, victim) ∷ hs) =
    (if k == key && (allow l k now victim).1.ok then 1 else 0)
    + allowed key (allow l k now victim).0 hs

-- All of the requests come before the time `end`.
abbrev pub EndsBefore : ℕ → List Hit → Type 0
EndsBefore end [] = Unit
EndsBefore end ((now, _, _) ∷ hs) = (now < end) × EndsBefore end hs

hit-other :
    (l : Limiter) (j k : String) (now : ℕ) (b : Bucket)
    → (j == k) ≡ false
    → let l' = (hit l j now b).0 in
      (lookup k l'.buckets ≡ lookup k l.buckets)
      × (length l'.buckets ≤ suc (length l.buckets))
      × (l'.max ≡ l.max)
      × (l'.window ≡ l.window)
hit-other l j k now b other =
    let b' = record b { count = suc b.count } in
    (
      rw (lookup-insert k j b' l.buckets, other) refl,
      rw (length-insert j b' l.buckets) (ground arith),
      refl,
      refl,
    )

make_room-below :
    (l : Limiter) (key : String) (now : ℕ) (victim : String)
    → suc (length l.buckets) ≤ max_buckets
    → make_room l key now victim ≡ l
unfolding make_room
make_room-below l key now victim room = elim (Bool-cases (leb max_buckets (length l.buckets))) [
  | inl full ↦ absurd (ground arith)
  | inr free ↦ rw free (ground arith)
]

-- Below capacity a request of another key leaves a bucket alone, and adds one at most.
allow-other :
    (l : Limiter) (j k : String) (now : ℕ) (victim : String)
    → suc (length l.buckets) ≤ max_buckets
    → (j == k) ≡ false
    → let l' = (allow l j now victim).0 in
      (lookup k l'.buckets ≡ lookup k l.buckets)
      × (length l'.buckets ≤ suc (length l.buckets))
      × (l'.max ≡ l.max)
      × (l'.window ≡ l.window)
unfolding allow
allow-other l j k now victim room other =
    let is_fresh = hit-other l j k now (record { count = 0; start = now }) other in
    let same = make_room-below l j now victim room in
    elim (Bool-cases (l.max == 0)) [
      | inl off ↦ rw off (refl, omega arith, refl, refl)
      | inr on ↦ elim (Option-cases (lookup j l.buckets)) [
        | inl e ↦ rw (e, on) (rw same is_fresh)
        | inr (b, e) ↦ elim (Bool-cases (is_over l.window now b)) [
          | inl over ↦ rw (e, on) (rw over (rw same is_fresh))
          | inr live ↦ rw (e, on) (rw live (hit-other l j k now b other))
        ]
      ]
    ]

allow-same :
    (l : Limiter) (k : String) (now : ℕ) (victim : String) (b : Bucket)
    → (l.max == 0) ≡ false
    → lookup k l.buckets ≡ some b
    → now < b.start + l.window
    → allow l k now victim ≡ hit l k now b
unfolding allow
allow-same l k now victim b on e early = ground arith

-- While the limiter stays below its capacity, the requests of one key that come before the window of
-- its bucket ends are allowed exactly as far as the limit leaves room, whatever other keys ask.
pub allowed_in_window :
    (key : String) (l : Limiter) (hs : List Hit) (b : Bucket)
    → (l.max == 0) ≡ false
    → lookup key l.buckets ≡ some b
    → length l.buckets + length hs ≤ max_buckets
    → EndsBefore (b.start + l.window) hs
    → allowed key l hs ≡ min (asked key hs) (l.max - b.count)
unfolding allowed
allowed_in_window key l [] b on e room early = omega arith
allowed_in_window key l ((now, k, victim) ∷ hs) b on e room early = elim (Bool-cases (k == key)) [
  | inr other ↦
      let (found, grown, max', window') =
        allow-other l k key now victim (omega (arith, room)) other in
      rw other (
        skipped
          (allowed_in_window key (allow l k now victim).0 hs b (rw max' on) (found ∙ e)
            (omega (arith, room, grown)) (rw window' early.1))
          max')
  | inl mine ↦
      let same : allow l k now victim ≡ hit l k now b =
        allow-same l k now victim b on (ap (λ x. lookup x l.buckets) (==→≡ k key mine) ∙ e)
          early.0 in
      let b' = record b { count = suc b.count } in
      let stored : lookup key (insert k b' l.buckets) ≡ some b' =
        rw (lookup-insert key k b' l.buckets, mine) refl in
      let size : length (insert k b' l.buckets) ≡ length l.buckets =
        length-insert k b' l.buckets ∙ rw (==→≡ k key mine) (rw e refl) in
      rw (mine, same)
        (counted (
          allowed_in_window key (hit l k now b).0 hs b' on stored (omega (arith, room, size))
            early.1))
]
  where
    skipped :
        {n max : ℕ}
        → n ≡ min (asked key hs) (max - b.count)
        → max ≡ l.max
        → 0 + n ≡ min (0 + asked key hs) (l.max - b.count)
    skipped ih same = omega (arith, ih, same)

    counted :
        {n : ℕ}
        → n ≡ min (asked key hs) (l.max - suc b.count)
        → (if leb (suc b.count) l.max then 1 else 0) + n ≡ min (1 + asked key hs) (l.max - b.count)
    counted ih = ground (arith, ih)
