-- ===== src/Ratelimit/Bounds.antt =====
-- What the limiter remembers, over any requests.
use shell_watch.Base.{
  ℕ, suc, ◌≤◌, ◌<◌, ◌≡◌, refl, none, String, List, [], ◌∷◌, arith, leb, ◌==◌, if◌then◌else◌, Dict,
  lookup, is_some, length, length-insert, length-erase, drop, NodupKeys, insert-NodupKeys,
  erase-NodupKeys, string_eq, nat_eq, Bool-cases, Option-cases, inl, inr,
}
use shell_watch.Ratelimit.{
  Bucket, Limiter, max_buckets, is_over, prune, evict, prune_due, evict_full, make_room, hit, allow,
}

prune-length : (window now : ℕ) (d : Dict String Bucket) → length (prune window now d) ≤ length d
unfolding prune
prune-length window now [] = omega arith
prune-length window now ((k, b) ∷ d) = ground (arith, prune-length window now d)

prune-absent :
    (window now : ℕ) (d : Dict String Bucket) (k : String)
    → lookup k d ≡ none
    → lookup k (prune window now d) ≡ none
unfolding prune lookup
prune-absent window now [] k h = refl
prune-absent window now ((j, b) ∷ d) k h = ground (arith, prune-absent window now d k)

prune-NodupKeys :
    (window now : ℕ) (d : Dict String Bucket) → NodupKeys d → NodupKeys (prune window now d)
unfolding prune
prune-NodupKeys window now [] u = tt
prune-NodupKeys window now ((k, b) ∷ d) u =
    ground (arith, prune-absent window now d k u.0, prune-NodupKeys window now d u.1)

drop-NodupKeys : (d : Dict String Bucket) → NodupKeys d → NodupKeys (drop 1 d)
drop-NodupKeys [] u = tt
drop-NodupKeys ((k, b) ∷ d) u = u.1

evict-NodupKeys :
    (victim : String) (d : Dict String Bucket) → NodupKeys d → NodupKeys (evict victim d)
unfolding evict
evict-NodupKeys victim d u = ground (arith, erase-NodupKeys victim d u, drop-NodupKeys d u)

drop-length : (d : Dict String Bucket) → 0 < length d → suc (length (drop 1 d)) ≡ length d
drop-length [] h = omega arith
drop-length (x ∷ d) h = refl

evict-length :
    (victim : String) (d : Dict String Bucket)
    → NodupKeys d
    → 0 < length d
    → suc (length (evict victim d)) ≡ length d
unfolding evict
evict-length victim d u h = ground (arith, length-erase victim d u, drop-length d h)

-- The memory is bounded.
pub record IsBounded (l : Limiter) : Type 0 where
  pub nodup : NodupKeys l.buckets
  pub bounded : length l.buckets ≤ max_buckets

-- After making room for a key that has no bucket, one more fits.
make_room-fits :
    (l : Limiter) (key : String) (now : ℕ) (victim : String)
    → IsBounded l
    → let l' = make_room l key now victim in
      NodupKeys l'.buckets
      × ((if is_some (lookup key l'.buckets) then length l'.buckets else suc (length l'.buckets))
          ≤ max_buckets)
unfolding make_room
make_room-fits l key now victim w = elim (Bool-cases (is_some (lookup key l.buckets))) [
  | inl here ↦ rw here (w.nodup, rw here w.bounded)
  | inr absent ↦ elim (Bool-cases (leb max_buckets (length l.buckets))) [
    | inr room ↦ rw (absent, room) (w.nodup, rw absent (ground arith))
    | inl full ↦
        rw (absent, full) (evicted (prune_due l now) (pruned_nodup l now w) (pruned_length l now w))
  ]
]
  where
    pruned_nodup : (l : Limiter) (now : ℕ) → IsBounded l → NodupKeys (prune_due l now).buckets
    pruned_nodup l now w = ground (arith, prune-NodupKeys l.window now l.buckets w.nodup, w.nodup)

    pruned_length :
        (l : Limiter) (now : ℕ) → IsBounded l → length (prune_due l now).buckets ≤ max_buckets
    pruned_length l now w = ground (arith, prune-length l.window now l.buckets, w.bounded)

    evicted :
        (t : Limiter)
        → NodupKeys t.buckets
        → length t.buckets ≤ max_buckets
        → (let t' = evict_full t victim in
            NodupKeys t'.buckets
            × ((if is_some (lookup key t'.buckets)
                  then length t'.buckets
                  else suc (length t'.buckets))
                ≤ max_buckets))
    evicted t u le = elim (Bool-cases (leb max_buckets (length t.buckets))) [
      | inr room ↦ rw room (u, ground arith)
      | inl full ↦
          rw full
            (evict-NodupKeys victim t.buckets u, ground (arith, evict-length victim t.buckets u))
    ]

hit-IsBounded :
    (l : Limiter) (key : String) (now : ℕ) (b : Bucket)
    → NodupKeys l.buckets
    → (if is_some (lookup key l.buckets) then length l.buckets else suc (length l.buckets))
      ≤ max_buckets
    → IsBounded (hit l key now b).0
hit-IsBounded l key now b u le = record {
  nodup = insert-NodupKeys key (record b { count = suc b.count }) l.buckets u;
  bounded = rw (length-insert key (record b { count = suc b.count }) l.buckets) le;
}

allow-IsBounded :
    (l : Limiter) (key : String) (now : ℕ) (victim : String)
    → IsBounded l
    → IsBounded (allow l key now victim).0
unfolding allow
allow-IsBounded l key now victim w =
    let (u, le) = make_room-fits l key now victim w in
    let is_fresh =
      hit-IsBounded (make_room l key now victim) key now (record { count = 0; start = now }) u le in
    elim (Bool-cases (l.max == 0)) [
      | inl off ↦ rw off w
      | inr on ↦ elim (Option-cases (lookup key l.buckets)) [
        | inl e ↦ rw (e, on) is_fresh
        | inr (b, e) ↦ elim (Bool-cases (is_over l.window now b)) [
          | inl over ↦ rw (e, on) (rw over is_fresh)
          | inr live ↦ rw (e, on) (rw live (hit-IsBounded l key now b w.nodup (rw e w.bounded)))
        ]
      ]
    ]

-- A request: its time, its key, and the entry that a walk of a full map would give.
abbrev pub Hit : Type 0
Hit = ℕ × String × String

unfoldable pub run : Limiter → List Hit → Limiter
run l [] = l
run l ((now, key, victim) ∷ hs) = run (allow l key now victim).0 hs

-- Whatever requests come in, from whatever addresses, a limiter that starts within its bound holds at
-- most 5000 buckets, one for each key.
pub run-IsBounded : (l : Limiter) (hs : List Hit) → IsBounded l → IsBounded (run l hs)
unfolding run
run-IsBounded l [] w = w
run-IsBounded l ((now, key, victim) ∷ hs) w =
    run-IsBounded (allow l key now victim).0 hs (allow-IsBounded l key now victim w)
